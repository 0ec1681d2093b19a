-- ===== src/Encode.antt =====
-- src/tc_encode.c: the netlink message that installs or removes a rule. Each function returns the
-- attributes that it puts, in order; a nest that one function opens and ends is a nested
-- attribute. `flags & TCE_FLAG_LOOPBACK` is the argument `loopback`, `config->ifidx` the argument
-- `ifidx`.
pub mod Actions
pub mod Prefix
use Prim.Native.String.{String}
use flower_route.Base.{
  ℕ, ◌+◌, ◌*◌, ◌/◌, ◌%◌, ◌^◌, ◌≡◌, Bool, true, false, Option, none, some, [], ◌∷◌, bit_and, bit_or,
  if◌then◌else◌, ◌==◌,
}
use flower_route.Base.Bytes.{bytes16, bytes32, htons}
use flower_route.Ret.{Ret, ok, error, aborted, ◌>>=◌}
use flower_route.AfAddr.{af_inet, af_inet6}
use flower_route.TcRule.{
  RuleType, unspec, alien, forward, route_trap, route_goto, route_dft_goto, ttl_check, TcRule,
}
use flower_route.Netlink.{Payload, octets, strz, nested, Attrs, end, put, ◌&◌, Message}
use flower_route.Netlink.Names
use Actions.{tce_simple_gact, tce_add_ip_forward_rule}
use Prefix.{tce_match_prefix}

-- `TC_H_MAKE(maj, min)`, whose two halves do not meet.
abbrev pub tc_h_make : ℕ → ℕ → ℕ
tc_h_make maj min = maj / 2 ^ 16 % 2 ^ 16 * 2 ^ 16 + min % 2 ^ 16

-- `TC_H_CLSACT`, `TC_H_MIN_INGRESS`.
abbrev pub ingress_parent : ℕ
ingress_parent = tc_h_make 0xfffffff1 0xfff2

-- The header, then the `tcmsg`, then the attributes.
unfoldable pub tce_set_tcm : (ifidx : ℕ) (loopback : Bool) → ℕ → ℕ → ℕ → Attrs → Message
tce_set_tcm ifidx loopback nlmsg_type nlmsg_flags info attrs = record {
  nlmsg_type = nlmsg_type;
  nlmsg_flags = nlmsg_flags;
  tcm_family = 0;
  tcm_ifindex = ifidx;
  tcm_handle = if loopback then 1 else 0;
  tcm_parent = ingress_parent;
  tcm_info = info;
  attrs = attrs;
}

abbrev pub eth_types : Bool → ℕ → Attrs
eth_types loopback vlan_eth_type =
    put Names.tca_flower_key_vlan_eth_type (octets (bytes16 (htons vlan_eth_type)))
    & put Names.tca_flower_key_eth_type
        (octets (bytes16 (htons (if loopback then vlan_eth_type else Names.eth_p_8021q))))

unfoldable pub tce_flower_set_eth_type : Bool → ℕ → Ret Attrs
tce_flower_set_eth_type loopback af =
    if af == af_inet
    then ok (eth_types loopback Names.eth_p_ip)
    else if af == af_inet6
    then ok (eth_types loopback Names.eth_p_ipv6)
    else aborted

-- `rest` is what the caller puts before it ends the nest that this function returns.
unfoldable pub tce_new_flower_rule : Bool → TcRule → Attrs → Ret Attrs
unfolding tce_flower_set_eth_type
tce_new_flower_rule loopback tcr rest = do
  let flower_flags = if loopback then tcr.flower_flags else bit_and tcr.flower_flags 0xfffffffb
  types ← tce_flower_set_eth_type loopback tcr.af_addr.af
  let flower = put Names.tca_flower_flags (octets (bytes32 flower_flags)) & types & rest
  ok (put Names.tca_kind (strz "flower") & put Names.tca_options (nested flower))

unfoldable pub tce_add_tll_check_rule : Attrs
unfolding tce_simple_gact
tce_add_tll_check_rule =
    put Names.tca_flower_key_ip_ttl (octets (0x01 ∷ []))
    & put Names.tca_flower_key_ip_ttl_mask (octets (0xff ∷ []))
    & tce_simple_gact Names.tc_act_trap

unfoldable pub tce_add_ip_gact_rule : Bool → TcRule → ℕ → Attrs
unfolding tce_match_prefix tce_simple_gact
tce_add_ip_gact_rule loopback tcr action = tce_match_prefix loopback tcr & tce_simple_gact action

-- The `switch` over the type.
unfoldable pub rule_attrs : (ifidx : ℕ) → Bool → TcRule → RuleType → Ret Attrs
unfolding tce_add_tll_check_rule tce_add_ip_gact_rule tce_add_ip_forward_rule
rule_attrs ifidx loopback tcr forward = ok (tce_add_ip_forward_rule ifidx tcr)
rule_attrs ifidx loopback tcr route_trap = ok (tce_add_ip_gact_rule loopback tcr Names.tc_act_trap)
rule_attrs ifidx loopback tcr route_goto =
    ok (tce_add_ip_gact_rule loopback tcr (bit_or Names.tc_act_goto_chain tcr.goto_target))
rule_attrs ifidx loopback tcr ttl_check = ok tce_add_tll_check_rule
rule_attrs ifidx loopback tcr unspec = aborted
rule_attrs ifidx loopback tcr alien = aborted
rule_attrs ifidx loopback tcr route_dft_goto = aborted

abbrev pub add_flags : ℕ
add_flags =
    bit_or (bit_or (bit_or Names.nlm_f_request Names.nlm_f_ack) Names.nlm_f_excl) Names.nlm_f_create

unfoldable pub tc_encode_add_rule : (ifidx : ℕ) → Bool → (chain_no prio : ℕ) → TcRule → Ret Message
unfolding tce_set_tcm tce_new_flower_rule rule_attrs
tc_encode_add_rule ifidx loopback chain_no prio tcr = do
  body ← rule_attrs ifidx loopback tcr tcr.type
  flower ← tce_new_flower_rule loopback tcr body
  ok (
      tce_set_tcm ifidx loopback Names.rtm_newtfilter add_flags
        (tc_h_make (prio * 2 ^ 16) (htons Names.eth_p_8021q))
        (put Names.tca_chain (octets (bytes32 chain_no)) & flower))

unfoldable pub tc_encode_drop_chain : (ifidx : ℕ) → Bool → (chain_no : ℕ) → Message
unfolding tce_set_tcm
tc_encode_drop_chain ifidx loopback chain_no =
    tce_set_tcm ifidx loopback Names.rtm_deltfilter (bit_or Names.nlm_f_request Names.nlm_f_ack) 0
      (put Names.tca_chain (octets (bytes32 chain_no)))

unfoldable pub tc_encode_drop_rule : (ifidx : ℕ) → Bool → (chain_no prio : ℕ) → Message
unfolding tce_set_tcm
tc_encode_drop_rule ifidx loopback chain_no prio =
    tce_set_tcm ifidx loopback Names.rtm_deltfilter (bit_or Names.nlm_f_request Names.nlm_f_ack)
      (tc_h_make (prio * 2 ^ 16) 0) (put Names.tca_chain (octets (bytes32 chain_no)))

unfoldable pub tc_encode_rule :
    (ifidx : ℕ) → Bool → (chain_no prio : ℕ) → Option TcRule → Ret Message
unfolding tc_encode_add_rule tc_encode_drop_rule
tc_encode_rule ifidx loopback chain_no prio (some tcr) =
    tc_encode_add_rule ifidx loopback chain_no prio tcr
tc_encode_rule ifidx loopback chain_no prio none =
    ok (tc_encode_drop_rule ifidx loopback chain_no prio)
