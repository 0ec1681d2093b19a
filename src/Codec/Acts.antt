-- ===== src/Codec/Acts.antt =====
-- What the decoder of actions makes of the encoder's actions.
use Prim.Native.String.{String}
use flower_route.Base.{ℕ, ◌+◌, ◌/◌, ◌%◌, ◌^◌, ◌<◌, ◌≡◌, refl, ap, ◌∙◌, some, arith, bit_or}
use flower_route.Base.Bits.{bit_or-disjoint}
use flower_route.Base.Bytes.{bytes16, load16-bytes16}
use flower_route.Ret.{ok, ◌>>=◌}
use flower_route.TcRule.{TcRule}
use flower_route.TcRule.Have
use flower_route.Netlink.{
  strz, octets, nested, gact_parms, vlan_parms, mirred_parms, Attrs, end, put, ◌&◌, Mnl, each,
}
use flower_route.Netlink.Names
use flower_route.Netlink.Table.{parse_table-fill}
use flower_route.Encode.Actions.{
  tce_action, tce_modify_vlan_action, tce_redirect_action, tce_csum_action,
}
use flower_route.Decode.Actions.{
  add_trait, apply_gact, apply_vlan_id, decode_gact, decode_vlan, decode_mirred, decode_csum,
  act_helper, decode_act, tc_act_attr_types, tca_gact_attr_types, tca_vlan_attr_types,
  tca_mirred_attr_types,
}
use flower_route.Codec.Pedit.{Family, v4, v6, after_pedit, pedit_opts, decode_pedit_lem}

-- The goto word of a target within 28 bits, and the trap.
pub apply_gact-goto :
    (target : ℕ) (rule : TcRule)
    → target < 2 ^ 28
    → apply_gact (bit_or Names.tc_act_goto_chain target) rule
      ≡ record (add_trait Have.goto rule) { goto_target = target }
unfolding apply_gact
apply_gact-goto target rule h =
    let word : bit_or Names.tc_act_goto_chain target ≡ Names.tc_act_goto_chain + target =
      bit_or-disjoint 28 2 target h in
    let low : (Names.tc_act_goto_chain + target) % 2 ^ 28 ≡ target = omega arith in
    let high : (Names.tc_act_goto_chain + target) / 2 ^ 28 ≡ 2 = omega arith in
    rw word (rw high (rw low))

module _ (m : Mnl) where
  decode_gact_lem :
      (action : ℕ) (rule : TcRule)
      → decode_gact m (some (nested (put Names.tca_gact_parms (gact_parms action)))) rule
        ≡ ok (apply_gact action rule)
  unfolding decode_gact
  decode_gact_lem action rule = rw (
      parse_table-fill m Names.tca_gact_max tca_gact_attr_types
        (put Names.tca_gact_parms (gact_parms action))
        ((omega arith, refl, m.validate_binary _), tt))

  decode_vlan_lem :
      (vlan_id : ℕ) (rule : TcRule)
      → vlan_id < 2 ^ 16
      → decode_vlan m
          (some (
            nested (
              put Names.tca_vlan_parms (vlan_parms Names.tca_vlan_act_modify Names.tc_act_pipe)
              & put Names.tca_vlan_push_vlan_id (octets (bytes16 vlan_id)))))
          rule
        ≡ ok (apply_vlan_id vlan_id rule)
  unfolding decode_vlan
  decode_vlan_lem vlan_id rule h =
      rw
        (parse_table-fill m Names.tca_vlan_max tca_vlan_attr_types
          (put Names.tca_vlan_parms (vlan_parms Names.tca_vlan_act_modify Names.tc_act_pipe)
            & put Names.tca_vlan_push_vlan_id (octets (bytes16 vlan_id)))
          (
            (omega arith, refl, m.validate_binary _),
            ((omega arith, refl, m.validate_u16 _ refl), tt),
          ))
        (ap (λ v. ok (apply_vlan_id v rule)) (load16-bytes16 vlan_id h))

  -- The actions of one kind each, as the encoder writes them, through the list of helpers.
  decode_act_lem :
      (act_no : ℕ) (kind : String) (opts rest : Attrs) (rule : TcRule)
      → each (decode_act m) (tce_action act_no kind opts & rest) rule
        ≡ (act_helper m kind (some (nested opts)) rule >>= each (decode_act m) rest)
  unfolding decode_act tce_action
  decode_act_lem act_no kind opts rest rule = rw (
      parse_table-fill m Names.tca_act_max tc_act_attr_types
        (put Names.tca_act_kind (strz kind) & put Names.tca_act_options (nested opts))
        ((omega arith, refl, m.validate_text _), ((omega arith, refl, m.validate_nested _), tt)))

module _ (m : Mnl) (tcr : TcRule) where
  decode_mirred_lem :
      (ifidx : ℕ) (rule : TcRule)
      → decode_mirred m
          (some (
            nested (
              put Names.tca_mirred_parms
                (mirred_parms Names.tca_egress_redir Names.tc_act_stolen ifidx))))
          rule
        ≡ ok rule
  unfolding decode_mirred
  decode_mirred_lem ifidx rule = rw (
      parse_table-fill m Names.tca_mirred_max tca_mirred_attr_types
        (put Names.tca_mirred_parms (mirred_parms Names.tca_egress_redir Names.tc_act_stolen ifidx))
        ((omega arith, refl, m.validate_binary _), tt))

  vlan_act :
      (act_no : ℕ) (rest : Attrs) (rule : TcRule)
      → tcr.vlan_id < 2 ^ 16
      → each (decode_act m) (tce_modify_vlan_action act_no tcr.vlan_id & rest) rule
        ≡ each (decode_act m) rest (apply_vlan_id tcr.vlan_id rule)
  unfolding tce_modify_vlan_action act_helper
  vlan_act act_no rest rule h =
      decode_act_lem m act_no "vlan" _ rest rule ∙ rw (decode_vlan_lem m tcr.vlan_id rule h)

  pedit_act :
      (f : Family) (act_no : ℕ) (rest : Attrs) (rule : TcRule)
      → each (decode_act m) (tce_action act_no "pedit" (pedit_opts tcr f) & rest) rule
        ≡ each (decode_act m) rest (after_pedit tcr rule)
  unfolding act_helper
  pedit_act f act_no rest rule =
      decode_act_lem m act_no "pedit" _ rest rule ∙ rw (decode_pedit_lem m tcr f rule)

  redirect_act :
      (ifidx act_no : ℕ) (rule : TcRule)
      → each (decode_act m) (tce_redirect_action ifidx act_no) rule ≡ ok rule
  unfolding tce_redirect_action act_helper
  redirect_act ifidx act_no rule =
      decode_act_lem m act_no "mirred" _ end rule ∙ rw (decode_mirred_lem ifidx rule)

  csum_act :
      (act_no : ℕ) (rest : Attrs) (rule : TcRule)
      → each (decode_act m) (tce_csum_action act_no & rest) rule ≡ each (decode_act m) rest rule
  unfolding tce_csum_action act_helper decode_csum
  csum_act act_no rest rule = decode_act_lem m act_no "csum" _ rest rule

-- The actions of a forward rule, in the encoder's order.
abbrev pub forward_list : (ifidx : ℕ) → TcRule → Family → Attrs
forward_list ifidx tcr v4 =
    tce_modify_vlan_action 1 tcr.vlan_id
    & tce_action 2 "pedit" (pedit_opts tcr v4)
    & tce_csum_action 3
    & tce_redirect_action ifidx 4
forward_list ifidx tcr v6 =
    tce_modify_vlan_action 1 tcr.vlan_id
    & tce_action 2 "pedit" (pedit_opts tcr v6)
    & tce_redirect_action ifidx 3

module _ (m : Mnl) (ifidx : ℕ) (tcr rule : TcRule) where
  pub forward_acts :
      (f : Family)
      → tcr.vlan_id < 2 ^ 16
      → each (decode_act m) (forward_list ifidx tcr f) rule
        ≡ ok (after_pedit tcr (apply_vlan_id tcr.vlan_id rule))
  forward_acts v4 h =
      vlan_act m tcr 1 _ rule h
      ∙ pedit_act m tcr v4 2 _ _
      ∙ csum_act m tcr 3 _ _
      ∙ redirect_act m tcr ifidx 4 _
  forward_acts v6 h =
      vlan_act m tcr 1 _ rule h ∙ pedit_act m tcr v6 2 _ _ ∙ redirect_act m tcr ifidx 3 _

-- The single action of the other rules.
module _ (m : Mnl) (action : ℕ) (rule : TcRule) where
  pub gact_act :
      each (decode_act m) (tce_action 1 "gact" (put Names.tca_gact_parms (gact_parms action))) rule
      ≡ ok (apply_gact action rule)
  unfolding act_helper tce_action
  gact_act = decode_act_lem m 1 "gact" _ end rule ∙ rw (decode_gact_lem m action rule)
