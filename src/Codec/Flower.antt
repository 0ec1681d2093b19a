-- ===== src/Codec/Flower.antt =====
-- What the decoder of a flower filter (src/tc_decode.c) makes of the encoder's filters.
use flower_route.Base.{
  lt→ltb, ℕ, ◌^◌, ◌≤◌, ◌<◌, ◌≡◌, refl, ap, true, some, List, [], ◌∷◌, arith, bit_or,
}
use flower_route.Base.Bytes.{bytes16, bytes32, load16, htons, load32-bytes32}
use flower_route.Ret.{ok}
use flower_route.AfAddr.{AfAddr, build_af_addr, af_inet, af_inet6, replicate, take}
use flower_route.TcRule.{TcRule, zero_rule, unspec}
use flower_route.TcRule.Have
use flower_route.Netlink.{octets, nested, gact_parms, Attrs, put, ◌&◌, Mnl}
use flower_route.Netlink.Names
use flower_route.Netlink.Table.{AllValid, parse_table-fill, parse_table, fill, empty_table}
use flower_route.Encode.{eth_types}
use flower_route.Decode.Flower.{
  length_or_alien, decode_acts, decode_flags, decode_ttl, decode_family, decode_dst, count_ones,
  ones_loop, decode_flower, tc_flower_attr_types,
}
use flower_route.Decode.Actions.{apply_vlan_id, decode_act, apply_gact, add_trait}
use flower_route.Codec.Pedit.{Family, v4, v6}
use flower_route.Codec.Acts.{forward_list, forward_acts, gact_act, apply_gact-goto}
use flower_route.Codec.Wire.{forward_rule, ttl_rule, goto_rule, family_addr}
use flower_route.Codec.Masks.{ones-ip4_mask, ones-ipv6_mask}
use flower_route.Encode.Actions.{tce_action}
use flower_route.Decode.Reads.{read_u8}
use flower_route.Encode.Prefix.{ip4_mask, tce_build_ipv6_mask}

abbrev pub eth_no : Family → ℕ
eth_no v4 = Names.eth_p_ip
eth_no v6 = Names.eth_p_ipv6

-- The attributes of a filter of the encoder, around what its type puts.
abbrev pub flower_of : Family → (flags : ℕ) → Attrs → Attrs
flower_of f flags body =
    put Names.tca_flower_flags (octets (bytes32 flags)) & eth_types true (eth_no f) & body

abbrev pub untyped : TcRule → TcRule
untyped rule = record rule { type = unspec }

-- The reader of the protocol undoes what the encoder puts for it.
eth_read : (f : Family) → htons (load16 (bytes16 (htons (eth_no f)))) ≡ eth_no f
unfolding htons load16
eth_read v4 = refl
eth_read v6 = refl

abbrev FlowerValid : Mnl → Attrs → Type 0
FlowerValid m = AllValid m Names.tca_flower_max tc_flower_attr_types

flower_of-FlowerValid :
    (m : Mnl) (f : Family) (flags : ℕ) (body : Attrs)
    → FlowerValid m body
    → FlowerValid m (flower_of f flags body)
flower_of-FlowerValid m v4 flags body v = (
  (omega arith, refl, m.validate_u32 _ refl),
  ((omega arith, refl, m.validate_u16 _ refl), ((omega arith, refl, m.validate_u16 _ refl), v)),
)
flower_of-FlowerValid m v6 flags body v = (
  (omega arith, refl, m.validate_u32 _ refl),
  ((omega arith, refl, m.validate_u16 _ refl), ((omega arith, refl, m.validate_u16 _ refl), v)),
)

abbrev TableOf : Mnl → Family → ℕ → Attrs → Type 0
TableOf m f flags body =
    parse_table m Names.tca_flower_max tc_flower_attr_types (flower_of f flags body)
    ≡ ok (fill (flower_of f flags body) empty_table)

parse_flower_of :
    (m : Mnl) (f : Family) (flags : ℕ) (body : Attrs) → FlowerValid m body → TableOf m f flags body
parse_flower_of m f flags body v =
    parse_table-fill m Names.tca_flower_max tc_flower_attr_types (flower_of f flags body)
      (flower_of-FlowerValid m f flags body v)

module _ (m : Mnl) (ifidx flags vlan_id w0 w1 w2 : ℕ) where
  abbrev pub forward_body : Family → Attrs
  forward_body f =
      put Names.tca_flower_act
        (nested (forward_list ifidx (forward_rule f flags vlan_id w0 w1 w2) f))

  forward_body-FlowerValid : (f : Family) → FlowerValid m (forward_body f)
  forward_body-FlowerValid f = ((omega arith, refl, m.validate_nested _), tt)

  pub forward_flower :
      (f : Family)
      → flags < 2 ^ 32
      → 0 < vlan_id
      → vlan_id < 2 ^ 16
      → decode_flower m (flower_of f flags (forward_body f)) zero_rule
        ≡ ok (untyped (forward_rule f flags vlan_id w0 w1 w2))
  unfolding decode_flower decode_acts decode_flags decode_ttl decode_family decode_dst apply_vlan_id
  forward_flower v4 hf h0 hv =
      rw (parse_flower_of m v4 flags (forward_body v4) (forward_body-FlowerValid v4)) (
        rw (m.parse_each (decode_act m) _ zero_rule) (
          rw (forward_acts m ifidx (forward_rule v4 flags vlan_id w0 w1 w2) zero_rule v4 hv)
            (rw (lt→ltb 0 vlan_id h0, load32-bytes32 flags hf) (rw (eth_read v4)))))
  forward_flower v6 hf h0 hv =
      rw (parse_flower_of m v6 flags (forward_body v6) (forward_body-FlowerValid v6)) (
        rw (m.parse_each (decode_act m) _ zero_rule) (
          rw (forward_acts m ifidx (forward_rule v6 flags vlan_id w0 w1 w2) zero_rule v6 hv)
            (rw (lt→ltb 0 vlan_id h0, load32-bytes32 flags hf) (rw (eth_read v6)))))

abbrev with_dst : (rule : TcRule) → AfAddr → TcRule
with_dst rule addr = add_trait Have.ip (record rule { af_addr = addr })

count_ones_lem :
    (bs : List ℕ) (n : ℕ) (rule : TcRule)
    → ones_loop bs 0 ≡ some n
    → count_ones (some (octets bs)) rule ≡ ok (n, rule)
unfolding count_ones
count_ones_lem bs n rule e = ap (λ o. length_or_alien o rule) e

dst4 :
    (a b c d n : ℕ) (rule : TcRule)
    → n ≤ 32
    → decode_dst af_inet
        (some (octets (a ∷ b ∷ c ∷ d ∷ [])))
        (some (octets (bytes32 (ip4_mask n))))
        rule
      ≡ ok (
          with_dst rule
            (record { af = af_inet; mask_len = n; addr = a ∷ b ∷ c ∷ d ∷ replicate 12 0 }))
unfolding decode_dst build_af_addr
dst4 a b c d n rule h = rw (count_ones_lem _ n rule (ones-ip4_mask n h))

dst6 :
    (addr : List ℕ) (n : ℕ) (rule : TcRule)
    → n ≤ 128
    → take 16 addr ≡ addr
    → decode_dst af_inet6 (some (octets addr)) (some (octets (tce_build_ipv6_mask n))) rule
      ≡ ok (with_dst rule (record { af = af_inet6; mask_len = n; addr = addr }))
unfolding decode_dst build_af_addr
dst6 addr n rule h ha = rw (count_ones_lem _ n rule (ones-ipv6_mask n h), ha)

-- The other rules, whose single action is a gact.
module _ (m : Mnl) (flags action : ℕ) where
  abbrev pub gact_list : Attrs
  gact_list =
      put Names.tca_flower_act
        (nested (tce_action 1 "gact" (put Names.tca_gact_parms (gact_parms action))))

  gact_list-FlowerValid : FlowerValid m gact_list
  gact_list-FlowerValid = ((omega arith, refl, m.validate_nested _), tt)

  abbrev pub ttl_body : Attrs
  ttl_body =
      put Names.tca_flower_key_ip_ttl (octets (0x01 ∷ []))
      & put Names.tca_flower_key_ip_ttl_mask (octets (0xff ∷ []))
      & gact_list

  pub ttl_flower :
      (f : Family)
      → flags < 2 ^ 32
      → action ≡ Names.tc_act_trap
      → decode_flower m (flower_of f flags ttl_body) zero_rule ≡ ok (untyped (ttl_rule f flags))
  unfolding decode_flower decode_acts decode_flags decode_ttl decode_family decode_dst apply_gact
      read_u8
  ttl_flower v4 hf ht =
      rw
        (parse_flower_of m v4 flags ttl_body (
          (omega arith, refl, m.validate_u8 _ refl),
          ((omega arith, refl, m.validate_u8 _ refl), gact_list-FlowerValid),
        ))
        (rw (m.parse_each (decode_act m) _ zero_rule) (
          rw (gact_act m action zero_rule)
            (rw (load32-bytes32 flags hf) (rw ht (rw (eth_read v4))))))
  ttl_flower v6 hf ht =
      rw
        (parse_flower_of m v6 flags ttl_body (
          (omega arith, refl, m.validate_u8 _ refl),
          ((omega arith, refl, m.validate_u8 _ refl), gact_list-FlowerValid),
        ))
        (rw (m.parse_each (decode_act m) _ zero_rule) (
          rw (gact_act m action zero_rule)
            (rw (load32-bytes32 flags hf) (rw ht (rw (eth_read v6))))))

  pub default_flower :
      (target : ℕ)
      → flags < 2 ^ 32
      → target < 2 ^ 28
      → action ≡ bit_or Names.tc_act_goto_chain target
      → decode_flower m (flower_of v4 flags gact_list) zero_rule
        ≡ ok (record (untyped (goto_rule (family_addr v4) flags target)) { traits = 0x05 })
  unfolding decode_flower decode_acts decode_flags decode_ttl decode_family decode_dst
  default_flower target hf ht e = rw (parse_flower_of m v4 flags gact_list gact_list-FlowerValid) (
      rw (m.parse_each (decode_act m) _ zero_rule) (
        rw (gact_act m action zero_rule) (
          rw (load32-bytes32 flags hf)
            (rw e (rw (apply_gact-goto target zero_rule ht) (rw (eth_read v4)))))))

  abbrev pub body4 : (a b c d n : ℕ) → Attrs
  body4 a b c d n =
      put Names.tca_flower_key_ipv4_dst (octets (a ∷ b ∷ c ∷ d ∷ []))
      & put Names.tca_flower_key_ipv4_dst_mask (octets (bytes32 (ip4_mask n)))
      & gact_list

  abbrev pub body6 : (addr : List ℕ) (n : ℕ) → Attrs
  body6 addr n =
      put Names.tca_flower_key_ipv6_dst (octets addr)
      & put Names.tca_flower_key_ipv6_dst_mask (octets (tce_build_ipv6_mask n))
      & gact_list

  pub prefix4_flower :
      (a b c d n : ℕ) (rule : TcRule)
      → flags < 2 ^ 32
      → n ≤ 32
      → apply_gact action zero_rule ≡ rule
      → decode_flower m (flower_of v4 flags (body4 a b c d n)) zero_rule
        ≡ ok (
            add_trait Have.ip (
              add_trait Have.af (record rule {
                flower_flags = flags;
                af_addr = record {
                  af = af_inet;
                  mask_len = n;
                  addr = a ∷ b ∷ c ∷ d ∷ replicate 12 0;
                };
              })))
  unfolding decode_flower decode_acts decode_flags decode_ttl decode_family
  prefix4_flower a b c d n rule hf hn e =
      rw
        (parse_flower_of m v4 flags (body4 a b c d n) (
          (omega arith, refl, m.validate_u32 _ refl),
          ((omega arith, refl, m.validate_u32 _ refl), gact_list-FlowerValid),
        ))
        (rw (m.parse_each (decode_act m) _ zero_rule) (
          rw (gact_act m action zero_rule)
            (rw (load32-bytes32 flags hf) (rw e (rw (eth_read v4) (rw (dst4 a b c d n _ hn)))))))

  pub prefix6_flower :
      (addr : List ℕ) (n : ℕ) (rule : TcRule)
      → flags < 2 ^ 32
      → n ≤ 128
      → take 16 addr ≡ addr
      → apply_gact action zero_rule ≡ rule
      → decode_flower m (flower_of v6 flags (body6 addr n)) zero_rule
        ≡ ok (
            add_trait Have.ip (
              add_trait Have.af (record rule {
                flower_flags = flags;
                af_addr = record { af = af_inet6; mask_len = n; addr = addr };
              })))
  unfolding decode_flower decode_acts decode_flags decode_ttl decode_family
  prefix6_flower addr n rule hf hn ha e =
      rw
        (parse_flower_of m v6 flags (body6 addr n) (
          (omega arith, refl, m.validate_binary _),
          ((omega arith, refl, m.validate_binary _), gact_list-FlowerValid),
        ))
        (rw (m.parse_each (decode_act m) _ zero_rule) (
          rw (gact_act m action zero_rule)
            (rw (load32-bytes32 flags hf) (rw e (rw (eth_read v6) (rw (dst6 addr n _ hn ha)))))))
