-- ===== src/Decode.antt =====
-- src/tc_decode.c: from a netlink message to the rule that it stands for. libmnl is the section's
-- parameter. An assertion that fails, a read through NULL and a payload of another kind than its
-- reader expects are `aborted`.
pub mod Dispatch
pub mod Reads
pub mod Actions
pub mod Flower
use Prim.Native.String.{String}
use text.Mathlib.Text.{◌==◌ as str_eq}
use flower_route.Base.{
  ℕ, ◌+◌, ◌/◌, ◌%◌, ◌^◌, ◌≡◌, Bool, true, false, ◌&&◌, not, Option, none, some, [], ◌∷◌, ◌==◌,
  is_some, if◌then◌else◌,
}
use flower_route.Ret.{Ret, ok, error, aborted, assert, ◌>>=◌, ◌>>◌}
use flower_route.TcRule.{TcRule, zero_rule, tc_rule_mark_alien, tc_rule_set_type, tc_rule_detect}
use flower_route.Netlink.{Payload, Attrs, Message, Mnl, u8, u32, nul_string, nested_type, binary}
use flower_route.Netlink.Names
use flower_route.Netlink.Table.{AttrTable, TypeMap, type_map, parse_table}
use Reads.{nested_attrs, read_u32, read_str, u32_or, str_or_null}
use Flower.{decode_flower}

abbrev pub tc_attr_types : TypeMap
tc_attr_types = type_map (
    (Names.tca_chain, u32)
    ∷ (Names.tca_kind, nul_string)
    ∷ (Names.tca_options, nested_type)
    ∷ (Names.tca_stats, binary)
    ∷ (Names.tca_xstats, binary)
    ∷ (Names.tca_stats2, nested_type)
    ∷ (Names.tca_hw_offload, u8)
    ∷ [])

-- `struct tc_decoded_rule`.
pub record DecodedRule : Type 0 where
  pub is_done : Bool
  pub chain_no : ℕ
  pub prio : ℕ
  pub tcr : TcRule

abbrev pub not_done : DecodedRule
not_done = record { is_done = false; chain_no = 0; prio = 0; tcr = zero_rule }

-- `filter_kind && strcmp(filter_kind, "flower") == 0`
abbrev pub is_flower : Option String → Bool
is_flower none = false
is_flower (some kind) = str_eq kind "flower"

module _ (m : Mnl) where
  -- The options of a flower filter, or a rule that is alien; a removal says nothing of the rule.
  unfoldable pub decode_options : Message → AttrTable → Ret TcRule
  unfolding decode_flower tc_rule_mark_alien read_str
  decode_options nlh tb = do
    kind ← str_or_null (tb Names.tca_kind)
    if is_flower kind && is_some (tb Names.tca_options)
        then (do options ← nested_attrs (tb Names.tca_options); decode_flower m options zero_rule)
        else if nlh.nlmsg_type == Names.rtm_newtfilter
        then tc_rule_mark_alien zero_rule
        else ok zero_rule

  -- `tc_rule_set_type(tcr, tc_rule_detect(tcr))`, for a filter that is there.
  unfoldable pub detect_type : Message → TcRule → Ret TcRule
  unfolding tc_rule_set_type tc_rule_detect
  detect_type nlh tcr =
      let (type, tcr') = tc_rule_detect tcr in
      if nlh.nlmsg_type == Names.rtm_newtfilter then tc_rule_set_type tcr' type else ok tcr

  unfoldable pub try_decode_filter : Message → Ret DecodedRule
  unfolding parse_table decode_options detect_type
  try_decode_filter nlh = if nlh.tcm_handle == 0 then ok not_done else do
    assert (nlh.tcm_handle == 1)
    tb ← parse_table m Names.tca_max tc_attr_types nlh.attrs
    tcr ← decode_options nlh tb
    chain_no ← u32_or (tb Names.tca_chain) 0
    tcr' ← detect_type nlh tcr
    ok (record {
      is_done = true;
      chain_no = chain_no;
      prio = nlh.tcm_info / 2 ^ 16 % 2 ^ 16;
      tcr = tcr';
    })
