-- ===== src/Decode/Actions.antt =====
-- The actions of a rule, as src/tc_decode.c decodes them.
use Prim.Native.String.{String}
use text.Mathlib.Text.{◌==◌ as str_eq}
use flower_route.Base.{
  ℕ, ◌*◌, ◌/◌, ◌%◌, ◌^◌, Bool, ◌||◌, ◌&&◌, Option, none, some, List, [], ◌∷◌, ◌++◌, ltb, leb, ◌==◌,
  if◌then◌else◌, bit_and, bit_or, bit_xor, length,
}
use flower_route.Ret.{Ret, ok, aborted, assert, ◌>>=◌, ◌>>◌}
use flower_route.TcRule.{TcRule, tc_rule_mark_alien}
use flower_route.TcRule.Have
use flower_route.Netlink.{
  Payload, gact_parms, vlan_parms, pedit_parms, mirred_parms, PeditKey, Callback, Mnl, u16, u32,
  nul_string, nested_type, binary,
}
use flower_route.Netlink.Names
use flower_route.Netlink.Table.{TypeMap, type_map, parse_table}
use flower_route.Decode.Reads.{
  required, attrs_of, nested_attrs, read_u16, u16_or, str_or_null, read_str,
}

abbrev pub tc_act_attr_types : TypeMap
tc_act_attr_types = type_map (
    (Names.tca_act_kind, nul_string)
    ∷ (Names.tca_act_options, nested_type)
    ∷ (Names.tca_act_index, u32)
    ∷ (Names.tca_act_stats, nested_type)
    ∷ (Names.tca_act_used_hw_stats, binary)
    ∷ (Names.tca_act_in_hw_count, u32)
    ∷ [])

abbrev pub tca_gact_attr_types : TypeMap
tca_gact_attr_types = type_map (
    (Names.tca_gact_tm, binary)
    ∷ (Names.tca_gact_parms, binary)
    ∷ (Names.tca_gact_prob, binary)
    ∷ [])

abbrev pub tca_vlan_attr_types : TypeMap
tca_vlan_attr_types = type_map (
    (Names.tca_vlan_tm, binary)
    ∷ (Names.tca_vlan_parms, binary)
    ∷ (Names.tca_vlan_push_vlan_id, u16)
    ∷ (Names.tca_vlan_push_vlan_protocol, u16)
    ∷ [])

abbrev pub tca_pedit_attr_types : TypeMap
tca_pedit_attr_types = type_map (
    (Names.tca_pedit_tm, binary)
    ∷ (Names.tca_pedit_parms_ex, binary)
    ∷ (Names.tca_pedit_keys_ex, binary)
    ∷ [])

abbrev pub tca_pedit_key_ex_attr_types : TypeMap
tca_pedit_key_ex_attr_types =
    type_map ((Names.tca_pedit_key_ex_htype, u16) ∷ (Names.tca_pedit_key_ex_cmd, u16) ∷ [])

abbrev pub tca_mirred_attr_types : TypeMap
tca_mirred_attr_types =
    type_map ((Names.tca_mirred_tm, binary) ∷ (Names.tca_mirred_parms, binary) ∷ [])

-- `rule->traits |= trait`.
abbrev pub add_trait : ℕ → TcRule → TcRule
add_trait trait rule = record rule { traits = bit_or rule.traits trait }

-- The `struct tc_gact`, `struct tc_vlan`, .. that a payload holds.
abbrev pub gact_of : Payload → Ret ℕ
gact_of (gact_parms action) = ok action
gact_of _ = aborted

abbrev pub vlan_of : Payload → Ret ℕ
vlan_of (vlan_parms v_action action) = ok v_action
vlan_of _ = aborted

abbrev pub pedit_of : Payload → Ret (List PeditKey)
pedit_of (pedit_parms action keys) = ok keys
pedit_of _ = aborted

abbrev pub mirred_of : Payload → Ret ℕ
mirred_of (mirred_parms eaction action ifindex) = ok eaction
mirred_of _ = aborted

-- The effect of the action word of a gact: `TC_ACT_EXT_CMP` compares what stands from bit 28 on.
unfoldable pub apply_gact : ℕ → TcRule → TcRule
apply_gact action rule =
    if action / 2 ^ 28 * 2 ^ 28 == Names.tc_act_goto_chain
    then record (add_trait Have.goto rule) { goto_target = action % 2 ^ 28 }
    else if action == Names.tc_act_trap
    then add_trait Have.trap rule
    else rule

-- `if (p->v_action != TCA_VLAN_ACT_MODIFY)`, and its kin.
abbrev pub alien_unless : Bool → TcRule → Ret TcRule
alien_unless expected rule = if expected then ok rule else tc_rule_mark_alien rule

unfoldable pub apply_vlan_id : ℕ → TcRule → TcRule
apply_vlan_id vlan_id rule =
    if ltb 0 vlan_id then record (add_trait Have.vlan_mod rule) { vlan_id = vlan_id } else rule

-- `struct m_pedit_key_ex`.
pub record KeyEx : Type 0 where
  pub htype : ℕ
  pub cmd : ℕ

-- The word of `rule->lladdr.raw` that a key is about.
unfoldable pub apply_mac_key : PeditKey → TcRule → TcRule
apply_mac_key key rule =
    let word = λ (old : ℕ). bit_xor (bit_and old key.mask) key.val in
    if key.off / 4 == 0
    then record rule { raw0 = word rule.raw0 }
    else if key.off / 4 == 1
    then record rule { raw1 = word rule.raw1 }
    else record rule { raw2 = word rule.raw2 }

abbrev pub is_mac_key : KeyEx → PeditKey → Bool
is_mac_key ex key =
    (ex.cmd == Names.tca_pedit_key_ex_cmd_set) && ((key.off % 4 == 0) && leb key.off 8)

abbrev pub is_ip_key : KeyEx → Bool
is_ip_key ex =
    (ex.htype == Names.tca_pedit_key_ex_hdr_type_ip4)
    || (ex.htype == Names.tca_pedit_key_ex_hdr_type_ip6)

-- The loop over the keys, with the descriptions that stand beside them; the memory behind the last
-- description that was written is zero.
unfoldable pub pedit_loop : List PeditKey → List KeyEx → TcRule → Ret TcRule
unfolding apply_mac_key tc_rule_mark_alien
pedit_loop [] exs rule = ok rule
pedit_loop (key ∷ keys) [] rule = tc_rule_mark_alien rule
pedit_loop (key ∷ keys) (ex ∷ exs) rule =
    let mac = pedit_loop keys exs (add_trait Have.lladdr (apply_mac_key key rule)) in
    let ip = pedit_loop keys exs (add_trait Have.ttl_dec rule) in
    if ex.htype == Names.tca_pedit_key_ex_hdr_type_eth
    then (if is_mac_key ex key then mac else tc_rule_mark_alien rule)
    else if is_ip_key ex
    then (if ex.cmd == Names.tca_pedit_key_ex_cmd_add then ip else tc_rule_mark_alien rule)
    else tc_rule_mark_alien rule

module _ (m : Mnl) where
  unfoldable pub decode_gact : Option Payload → TcRule → Ret TcRule
  unfolding parse_table apply_gact
  decode_gact options rule = do
    list ← nested_attrs options
    tb ← parse_table m Names.tca_gact_max tca_gact_attr_types list
    p ← required (tb Names.tca_gact_parms)
    action ← gact_of p
    ok (apply_gact action rule)

  unfoldable pub decode_vlan : Option Payload → TcRule → Ret TcRule
  unfolding parse_table apply_vlan_id tc_rule_mark_alien
  decode_vlan options rule = do
    list ← nested_attrs options
    tb ← parse_table m Names.tca_vlan_max tca_vlan_attr_types list
    p ← required (tb Names.tca_vlan_parms)
    v_action ← vlan_of p
    rule' ← alien_unless (v_action == Names.tca_vlan_act_modify) rule
    vlan_id ← u16_or (tb Names.tca_vlan_push_vlan_id) 0
    ok (apply_vlan_id vlan_id rule')

  -- One description; `keys_ex` has room for `nkeys` of them, and a write behind it is a fault.
  unfoldable pub decode_key_ex : (nkeys : ℕ) → Callback (List KeyEx)
  unfolding parse_table
  decode_key_ex nkeys type payload done = do
    list ← attrs_of payload
    tb ← parse_table m Names.tca_pedit_key_ex_max tca_pedit_key_ex_attr_types list
    htype_attr ← required (tb Names.tca_pedit_key_ex_htype)
    htype ← read_u16 htype_attr
    cmd_attr ← required (tb Names.tca_pedit_key_ex_cmd)
    cmd ← read_u16 cmd_attr
    assert (ltb (length done) nkeys)
    ok (done ++ record { htype = htype; cmd = cmd } ∷ [])

  unfoldable pub decode_pedit : Option Payload → TcRule → Ret TcRule
  unfolding parse_table decode_key_ex pedit_loop tc_rule_mark_alien
  decode_pedit options rule = do
    list ← nested_attrs options
    tb ← parse_table m Names.tca_pedit_max tca_pedit_attr_types list
    p ← required (tb Names.tca_pedit_parms_ex)
    ex_attrs ← nested_attrs (tb Names.tca_pedit_keys_ex)
    keys ← pedit_of p
    exs ← m.parse (decode_key_ex (length keys)) ex_attrs []
    if length keys == 0 then tc_rule_mark_alien rule else pedit_loop keys exs rule

  unfoldable pub decode_mirred : Option Payload → TcRule → Ret TcRule
  unfolding parse_table tc_rule_mark_alien
  decode_mirred options rule = do
    list ← nested_attrs options
    tb ← parse_table m Names.tca_mirred_max tca_mirred_attr_types list
    p ← required (tb Names.tca_mirred_parms)
    eaction ← mirred_of p
    alien_unless (eaction == Names.tca_egress_redir) rule

  unfoldable pub decode_csum : Option Payload → TcRule → Ret TcRule
  decode_csum options rule = ok rule

  -- `tc_act_helpers`: a kind that is not in it changes nothing.
  unfoldable pub act_helper : String → Option Payload → TcRule → Ret TcRule
  unfolding decode_gact decode_vlan decode_pedit decode_mirred decode_csum
  act_helper kind options rule =
      if str_eq kind "gact"
      then decode_gact options rule
      else if str_eq kind "vlan"
      then decode_vlan options rule
      else if str_eq kind "pedit"
      then decode_pedit options rule
      else if str_eq kind "mirred"
      then decode_mirred options rule
      else if str_eq kind "csum"
      then decode_csum options rule
      else ok rule

  -- One action of the list `TCA_FLOWER_ACT`.
  unfoldable pub decode_act : Callback TcRule
  unfolding parse_table act_helper tc_rule_mark_alien read_str
  decode_act type payload rule = do
    list ← attrs_of payload
    tb ← parse_table m Names.tca_act_max tc_act_attr_types list
    kind ← str_or_null (tb Names.tca_act_kind)
    elim kind [
      | none ↦ tc_rule_mark_alien rule
      | some s ↦ act_helper s (tb Names.tca_act_options) rule
    ]
