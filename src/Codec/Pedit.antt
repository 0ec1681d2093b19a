-- ===== src/Codec/Pedit.antt =====
-- What the decoder of a pedit action (src/tc_decode.c) makes of the encoder's keys.
use flower_route.Base.{
  inl, inr, ◌⊎◌, ℕ, ◌^◌, ◌<◌, ◌≡◌, refl, ap, ◌∙◌, some, List, [], ◌∷◌, arith, bit_and, bit_xor,
  ◌++◌, length, ltb,
}
use flower_route.Base.Bits.{bit_and-zero, zero-bit_xor}
use flower_route.Base.Bytes.{load16-bytes16}
use flower_route.Ret.{ok, assert, ◌>>◌}
use flower_route.AfAddr.{af_inet, af_inet6}
use flower_route.TcRule.{TcRule}
use flower_route.TcRule.Have
use flower_route.Netlink.{PeditKey, nested, pedit_parms, Attrs, put, ◌&◌, Mnl}
use flower_route.Netlink.Names
use flower_route.Netlink.Table.{parse_table-fill}
use flower_route.Encode.Actions.{put_u16, set_ex_key, mac_key, ttl_key}
use flower_route.Decode.Actions.{
  KeyEx, add_trait, pedit_loop, decode_key_ex, decode_pedit, tca_pedit_attr_types,
  tca_pedit_key_ex_attr_types,
}

-- A word that a key sets with an empty mask is the key's value.
set_word : (old val : ℕ) → bit_xor (bit_and old 0) val ≡ val
set_word old val = ap (λ n. bit_xor n val) (bit_and-zero old) ∙ zero-bit_xor val

-- The rule after the keys of the encoder's pedit action.
abbrev pub after_pedit : TcRule → TcRule → TcRule
after_pedit tcr rule =
    let mac = record rule { raw0 = tcr.raw0; raw1 = tcr.raw1; raw2 = tcr.raw2 } in
    add_trait Have.ttl_dec
      (add_trait Have.lladdr (add_trait Have.lladdr (add_trait Have.lladdr mac)))

abbrev eth_ex : KeyEx
eth_ex = record { htype = 1; cmd = 0 }

abbrev ttl_ex : ℕ → KeyEx
ttl_ex htype = record { htype = htype; cmd = 1 }

module _ (m : Mnl) where
  decode_key_ex_lem :
      (nkeys cmd htype type : ℕ) (done : List KeyEx)
      → cmd < 2 ^ 16
      → htype < 2 ^ 16
      → decode_key_ex m nkeys type
          (nested
            (put_u16 Names.tca_pedit_key_ex_cmd cmd & put_u16 Names.tca_pedit_key_ex_htype htype))
          done
        ≡ (assert (ltb (length done) nkeys)
            >> ok (done ++ record { htype = htype; cmd = cmd } ∷ []))
  unfolding decode_key_ex
  decode_key_ex_lem nkeys cmd htype type done hc hh =
      rw
        (parse_table-fill m Names.tca_pedit_key_ex_max tca_pedit_key_ex_attr_types
          (put_u16 Names.tca_pedit_key_ex_cmd cmd & put_u16 Names.tca_pedit_key_ex_htype htype)
          (
            (omega arith, refl, m.validate_u16 _ refl),
            ((omega arith, refl, m.validate_u16 _ refl), tt),
          ))
        (rw (load16-bytes16 cmd hc, load16-bytes16 htype hh))

  -- The descriptions of the four keys.
  key_exs :
      (htype : ℕ)
      → htype < 2 ^ 16
      → m.parse
          (decode_key_ex m 4)
          (set_ex_key
            & set_ex_key
            & set_ex_key
            & put Names.tca_pedit_key_ex (
                nested (
                  put_u16 Names.tca_pedit_key_ex_cmd Names.tca_pedit_key_ex_cmd_add
                  & put_u16 Names.tca_pedit_key_ex_htype htype)))
          []
        ≡ ok (eth_ex ∷ eth_ex ∷ eth_ex ∷ ttl_ex htype ∷ [])
  key_exs htype h = rw (m.parse_each (decode_key_ex m 4) _ []) (
      rw (
        decode_key_ex_lem 4 0 1 6 [] (omega arith) (omega arith),
        decode_key_ex_lem 4 0 1 6 (eth_ex ∷ []) (omega arith) (omega arith),
        decode_key_ex_lem 4 0 1 6 (eth_ex ∷ eth_ex ∷ []) (omega arith) (omega arith),
        decode_key_ex_lem 4 1 htype 6 (eth_ex ∷ eth_ex ∷ eth_ex ∷ []) (omega arith) h,
      ))

-- The loop over the four keys, for either family.
module _ (tcr rule : TcRule) where
  four_keys : PeditKey → List PeditKey
  four_keys last = mac_key 0 tcr.raw0 ∷ mac_key 4 tcr.raw1 ∷ mac_key 8 tcr.raw2 ∷ last ∷ []

  pedit_loop_lem :
      (htype : ℕ) (last : PeditKey)
      → (htype ≡ 2) ⊎ (htype ≡ 3)
      → pedit_loop (four_keys last) (eth_ex ∷ eth_ex ∷ eth_ex ∷ ttl_ex htype ∷ []) rule
        ≡ ok (after_pedit tcr rule)
  unfolding pedit_loop four_keys
  pedit_loop_lem htype last (inl e) =
      rw e
        (rw (set_word rule.raw0 tcr.raw0, set_word rule.raw1 tcr.raw1, set_word rule.raw2 tcr.raw2))
  pedit_loop_lem htype last (inr e) =
      rw e
        (rw (set_word rule.raw0 tcr.raw0, set_word rule.raw1 tcr.raw1, set_word rule.raw2 tcr.raw2))

-- The two families that rules are made for.
pub data Family : Type 0 where
  v4 v6 : Family

abbrev pub af_no : Family → ℕ
af_no v4 = af_inet
af_no v6 = af_inet6

abbrev htype_no : Family → ℕ
htype_no v4 = Names.tca_pedit_key_ex_hdr_type_ip4
htype_no v6 = Names.tca_pedit_key_ex_hdr_type_ip6

abbrev htype_attr : Family → Attrs
htype_attr f = put Names.tca_pedit_key_ex (
    nested (
      put_u16 Names.tca_pedit_key_ex_cmd Names.tca_pedit_key_ex_cmd_add
      & put_u16 Names.tca_pedit_key_ex_htype (htype_no f)))

-- What the encoder puts into the pedit action.
abbrev pub pedit_opts : TcRule → Family → Attrs
pedit_opts tcr f =
    put Names.tca_pedit_keys_ex (nested (set_ex_key & set_ex_key & set_ex_key & htype_attr f))
    & put Names.tca_pedit_parms_ex (
        pedit_parms Names.tc_act_pipe
          (mac_key 0 tcr.raw0 ∷ mac_key 4 tcr.raw1 ∷ mac_key 8 tcr.raw2 ∷ ttl_key (af_no f) ∷ []))

htype_cases : (f : Family) → (htype_no f ≡ 2) ⊎ (htype_no f ≡ 3)
htype_cases v4 = inl refl
htype_cases v6 = inr refl

htype_small : (f : Family) → htype_no f < 2 ^ 16
htype_small v4 = omega arith
htype_small v6 = omega arith

module _ (m : Mnl) (tcr : TcRule) where
  pub decode_pedit_lem :
      (f : Family) (rule : TcRule)
      → decode_pedit m (some (nested (pedit_opts tcr f))) rule ≡ ok (after_pedit tcr rule)
  unfolding decode_pedit four_keys
  decode_pedit_lem f rule =
      rw
        (parse_table-fill m Names.tca_pedit_max tca_pedit_attr_types (pedit_opts tcr f) (
          (omega arith, refl, m.validate_binary _),
          ((omega arith, refl, m.validate_binary _), tt),
        ))
        (rw (key_exs m (htype_no f) (htype_small f))
          (pedit_loop_lem tcr rule (htype_no f) (ttl_key (af_no f)) (htype_cases f)))
