-- ===== src/Codec/RoundTrip.antt =====
-- A rule that src/tc_encode.c encodes and src/tc_decode.c decodes again.
use flower_route.Base.{
  ℕ, ◌*◌, ◌/◌, ◌%◌, ◌^◌, ◌<◌, ◌≡◌, refl, true, false, none, some, arith, bit_or, ◌==◌,
}
use flower_route.Base.Bytes.{bytes32, htons, load32-bytes32}
use flower_route.Ret.{ok, ◌>>=◌}
use flower_route.AfAddr.{AfAddr, take-length}
use flower_route.TcRule.{RuleType, TcRule, zero_rule, unspec, tc_rule_detect, tc_rule_set_type}
use flower_route.Netlink.{octets, strz, nested, Attrs, put, ◌&◌, Message, Mnl}
use flower_route.Netlink.Names
use flower_route.Netlink.Table.{parse_table-fill}
use flower_route.Encode.{tc_h_make, add_flags, tce_set_tcm, tc_encode_rule}
use flower_route.Decode.{DecodedRule, tc_attr_types, decode_options, detect_type, try_decode_filter}
use flower_route.Decode.Flower.{decode_flower}
use flower_route.Decode.Actions.{apply_gact}
use flower_route.Codec.Pedit.{Family, v4, v6}
use flower_route.Codec.Acts.{apply_gact-goto}
use flower_route.Codec.Wire.{
  IsWire, IsPrefix, forward_rule, ttl_rule, goto_rule, trap_rule, family_addr,
}
use flower_route.Codec.Flower.{
  flower_of, untyped, forward_body, forward_flower, gact_list, ttl_body, ttl_flower, default_flower,
  body4, body6, prefix4_flower, prefix6_flower,
}

module _ (m : Mnl) (ifidx chain_no prio : ℕ) where
  -- The message around the attributes of a flower filter.
  abbrev filter_message : Attrs → Message
  filter_message flower =
      tce_set_tcm ifidx true Names.rtm_newtfilter add_flags
        (tc_h_make (prio * 2 ^ 16) (htons Names.eth_p_8021q))
        (put Names.tca_chain (octets (bytes32 chain_no))
          & put Names.tca_kind (strz "flower")
          & put Names.tca_options (nested flower))

  abbrev pub decoded : TcRule → DecodedRule
  decoded rule = record { is_done = true; chain_no = chain_no; prio = prio; tcr = rule }

  try_decode_lem :
      (flower : Attrs) (rule : TcRule) (type : RuleType)
      → chain_no < 2 ^ 32
      → prio < 2 ^ 16
      → decode_flower m flower zero_rule ≡ ok rule
      → (rule' : TcRule) → tc_rule_detect rule ≡ (type, rule')
      → rule'.type ≡ unspec
      → try_decode_filter m (filter_message flower) ≡ ok (decoded (record rule' { type = type }))
  unfolding try_decode_filter tce_set_tcm decode_options detect_type tc_rule_set_type
  try_decode_lem flower rule type hc hp e rule' d u =
      let prio_lem : tc_h_make (prio * 2 ^ 16) (htons Names.eth_p_8021q) / 2 ^ 16 % 2 ^ 16 ≡ prio =
        omega arith in
      rw
        (parse_table-fill m Names.tca_max tc_attr_types
          (put Names.tca_chain (octets (bytes32 chain_no))
            & put Names.tca_kind (strz "flower")
            & put Names.tca_options (nested flower))
          (
            (omega arith, refl, m.validate_u32 _ refl),
            (
              (omega arith, refl, m.validate_text _),
              ((omega arith, refl, m.validate_nested _), tt),
            ),
          ))
        (rw e (rw (load32-bytes32 chain_no hc) (rw d (rw u (rw prio_lem)))))

  -- A rule that the encoder makes an attribute list of, which decodes to it but for its type.
  encoded :
      (rule : TcRule) (flower : Attrs) (before : TcRule)
      → chain_no < 2 ^ 32
      → prio < 2 ^ 16
      → tc_encode_rule ifidx true chain_no prio (some rule) ≡ ok (filter_message flower)
      → decode_flower m flower zero_rule ≡ ok before
      → tc_rule_detect before ≡ (rule.type, untyped rule)
      → (tc_encode_rule ifidx true chain_no prio (some rule) >>= try_decode_filter m)
        ≡ ok (decoded rule)
  encoded rule flower before hc hp he hd ht =
      rw he (try_decode_lem flower before rule.type hc hp hd (untyped rule) ht refl)

  abbrev Returns : TcRule → Type 0
  Returns rule =
      (tc_encode_rule ifidx true chain_no prio (some rule) >>= try_decode_filter m)
      ≡ ok (decoded rule)

  forward_round :
      (f : Family) (flags vlan_id w0 w1 w2 : ℕ)
      → chain_no < 2 ^ 32
      → prio < 2 ^ 16
      → flags < 2 ^ 32
      → 0 < vlan_id
      → vlan_id < 2 ^ 16
      → Returns (forward_rule f flags vlan_id w0 w1 w2)
  unfolding tc_encode_rule tc_rule_detect
  forward_round v4 flags vlan_id w0 w1 w2 hc hp hf h0 hv =
      encoded _ (flower_of v4 flags (forward_body m ifidx flags vlan_id w0 w1 w2 v4)) _ hc hp refl
        (forward_flower m ifidx flags vlan_id w0 w1 w2 v4 hf h0 hv) refl
  forward_round v6 flags vlan_id w0 w1 w2 hc hp hf h0 hv =
      encoded _ (flower_of v6 flags (forward_body m ifidx flags vlan_id w0 w1 w2 v6)) _ hc hp refl
        (forward_flower m ifidx flags vlan_id w0 w1 w2 v6 hf h0 hv) refl

  trap_round :
      (addr : AfAddr) (flags : ℕ)
      → chain_no < 2 ^ 32
      → prio < 2 ^ 16
      → flags < 2 ^ 32
      → IsPrefix addr
      → Returns (trap_rule addr flags)
  unfolding tc_encode_rule tc_rule_detect apply_gact
  trap_round _ flags hc hp hf (IsPrefix.prefix4 a b c d n h0 hn) =
      let given : (n == 0) ≡ false = ground arith in
      encoded _ (flower_of v4 flags (body4 m flags Names.tc_act_trap a b c d n)) _ hc hp (rw given)
        (prefix4_flower m flags Names.tc_act_trap a b c d n _ hf hn refl) refl
  trap_round _ flags hc hp hf (IsPrefix.prefix6 addr n ha hn) =
      encoded _ (flower_of v6 flags (body6 m flags Names.tc_act_trap addr n)) _ hc hp
        (rw (take-length 16 addr ha))
        (prefix6_flower m flags Names.tc_act_trap addr n _ hf hn (take-length 16 addr ha) refl) refl

  goto_round :
      (addr : AfAddr) (flags target : ℕ)
      → chain_no < 2 ^ 32
      → prio < 2 ^ 16
      → flags < 2 ^ 32
      → target < 2 ^ 28
      → IsPrefix addr
      → Returns (goto_rule addr flags target)
  unfolding tc_encode_rule tc_rule_detect
  goto_round _ flags target hc hp hf ht (IsPrefix.prefix4 a b c d n h0 hn) =
      let given : (n == 0) ≡ false = ground arith in
      let action = bit_or Names.tc_act_goto_chain target in
      encoded _ (flower_of v4 flags (body4 m flags action a b c d n)) _ hc hp (rw given)
        (prefix4_flower m flags action a b c d n _ hf hn (apply_gact-goto target zero_rule ht)) refl
  goto_round _ flags target hc hp hf ht (IsPrefix.prefix6 addr n ha hn) =
      let action = bit_or Names.tc_act_goto_chain target in
      encoded _ (flower_of v6 flags (body6 m flags action addr n)) _ hc hp
        (rw (take-length 16 addr ha))
        (prefix6_flower m flags action addr n _ hf hn (take-length 16 addr ha)
          (apply_gact-goto target zero_rule ht))
        refl

  ttl_round :
      (f : Family) (flags : ℕ)
      → chain_no < 2 ^ 32
      → prio < 2 ^ 16
      → flags < 2 ^ 32
      → Returns (ttl_rule f flags)
  unfolding tc_encode_rule tc_rule_detect
  ttl_round v4 flags hc hp hf =
      encoded _ (flower_of v4 flags (ttl_body m flags Names.tc_act_trap)) _ hc hp refl
        (ttl_flower m flags Names.tc_act_trap v4 hf refl) refl
  ttl_round v6 flags hc hp hf =
      encoded _ (flower_of v6 flags (ttl_body m flags Names.tc_act_trap)) _ hc hp refl
        (ttl_flower m flags Names.tc_act_trap v6 hf refl) refl

  default_round :
      (flags target : ℕ)
      → chain_no < 2 ^ 32
      → prio < 2 ^ 16
      → flags < 2 ^ 32
      → target < 2 ^ 28
      → Returns (goto_rule (family_addr v4) flags target)
  unfolding tc_encode_rule tc_rule_detect
  default_round flags target hc hp hf ht =
      let action = bit_or Names.tc_act_goto_chain target in
      encoded _ (flower_of v4 flags (gact_list m flags action)) _ hc hp refl
        (default_flower m flags action target hf ht refl) refl

  -- The loopback message of a forward, trap, goto or TTL rule with fields in range (`IsWire`, which
  -- leaves out a trap for an IPv4 prefix of length 0) decodes to the same chain, priority and rule,
  -- in every field, for a 32-bit chain number and a 16-bit priority.
  pub round_trip :
      (rule : TcRule)
      → chain_no < 2 ^ 32
      → prio < 2 ^ 16
      → IsWire rule
      → (tc_encode_rule ifidx true chain_no prio (some rule) >>= try_decode_filter m)
        ≡ ok (decoded rule)
  round_trip _ hc hp (IsWire.forwards f flags vlan_id w0 w1 w2 hf h0 hv) =
      forward_round f flags vlan_id w0 w1 w2 hc hp hf h0 hv
  round_trip _ hc hp (IsWire.traps {addr} flags hf p) = trap_round addr flags hc hp hf p
  round_trip _ hc hp (IsWire.gotos {addr} flags target hf ht p) =
      goto_round addr flags target hc hp hf ht p
  round_trip _ hc hp (IsWire.gotos_default flags target hf ht) =
      default_round flags target hc hp hf ht
  round_trip _ hc hp (IsWire.checks_ttl f flags hf) = ttl_round f flags hc hp hf

  -- The loopback message of a removal gives back the chain and the priority, with an empty rule.
  pub drop_round_trip :
      chain_no < 2 ^ 32
      → prio < 2 ^ 16
      → (tc_encode_rule ifidx true chain_no prio none >>= try_decode_filter m)
        ≡ ok (decoded zero_rule)
  unfolding tc_encode_rule try_decode_filter decode_options detect_type
  drop_round_trip hc hp =
      let prio_lem : tc_h_make (prio * 2 ^ 16) 0 / 2 ^ 16 % 2 ^ 16 ≡ prio = omega arith in
      rw
        (parse_table-fill m Names.tca_max tc_attr_types
          (put Names.tca_chain (octets (bytes32 chain_no)))
          ((omega arith, refl, m.validate_u32 _ refl), tt))
        (rw (load32-bytes32 chain_no hc) (rw prio_lem))
