-- ===== src/TcRule.antt =====
-- `struct tc_rule` and its type and traits, src/tc_rule.h and src/tc_rule.c.
pub mod Have
pub mod Detect
mod Tests
use Have
use flower_route.Base.{
  ℕ, ◌+◌, ◌≡◌, Ordering, Bool, true, false, Option, none, some, List, [], ◌∷◌, ◌++◌, ◌&&◌, not, ltb,
  ◌==◌, if◌then◌else◌, bit_or,
}
use flower_route.Base.Bytes.{bytes16, bytes32}
use Prim.Native.String.{String}
use flower_route.Ret.{Ret, ok, aborted, assert, ◌>>=◌, ◌>>◌}
use flower_route.AfAddr.{AfAddr, zero_af_addr, af_addr_bytes}

-- `enum tc_rule_types` without its end mark, so that `type < TC_RULE_TYPE_MAX` always holds.
pub data RuleType : Type 0 where
  unspec alien forward route_trap route_goto route_dft_goto ttl_check : RuleType

-- The enumerator's value.
abbrev pub type_no : RuleType → ℕ
type_no unspec = 0
type_no alien = 1
type_no forward = 2
type_no route_trap = 3
type_no route_goto = 4
type_no route_dft_goto = 5
type_no ttl_check = 6

abbrev pub same_type : RuleType → RuleType → Bool
same_type a b = type_no a == type_no b

-- `type_traits`; the entries that the initialiser leaves out are 0.
unfoldable pub type_traits : RuleType → ℕ
type_traits forward = bit_or (bit_or (bit_or Have.af Have.lladdr) Have.ttl_dec) Have.vlan_mod
type_traits ttl_check = bit_or (bit_or Have.af Have.ttl_check) Have.trap
type_traits route_goto = bit_or Have.af_ip Have.goto
type_traits route_dft_goto = bit_or Have.af Have.goto
type_traits route_trap = bit_or Have.af_ip Have.trap
type_traits unspec = 0
type_traits alien = 0

-- `lladdr` as its three words `raw`, over the six bytes of `dst` and then of `src`.
pub record TcRule : Type 0 where
  pub type : RuleType
  pub vlan_id : ℕ
  pub flower_flags : ℕ
  pub goto_target : ℕ
  pub traits : ℕ
  pub af_addr : AfAddr
  pub ttl : ℕ
  pub raw0 : ℕ
  pub raw1 : ℕ
  pub raw2 : ℕ

-- What `memset` or `= {0}` leaves.
abbrev pub zero_rule : TcRule
zero_rule = record {
  type = unspec;
  vlan_id = 0;
  flower_flags = 0;
  goto_target = 0;
  traits = 0;
  af_addr = zero_af_addr;
  ttl = 0;
  raw0 = 0;
  raw1 = 0;
  raw2 = 0;
}

-- `config->flower_flags` is an argument.
unfoldable pub tc_rule_init : ℕ → TcRule → TcRule
tc_rule_init flower_flags tcr = record tcr { flower_flags = flower_flags }

unfoldable pub tc_rule_set_type : TcRule → RuleType → Ret TcRule
tc_rule_set_type rule type =
    if same_type rule.type alien
    then ok rule
    else do assert (same_type rule.type unspec); ok (record rule { type = type })

unfoldable pub tc_rule_set_type_and_traits : TcRule → RuleType → Ret TcRule
unfolding tc_rule_set_type type_traits
tc_rule_set_type_and_traits rule type = do
  rule ← tc_rule_set_type rule type
  let rule' = if rule.traits == 0 then record rule { traits = type_traits type } else rule
  assert (not (rule'.traits == 0))
  ok rule'

abbrev pub all_types : List RuleType
all_types = unspec ∷ alien ∷ forward ∷ route_trap ∷ route_goto ∷ route_dft_goto ∷ ttl_check ∷ []

-- The loop over the types from one on. The type, and the rule with its traits as they are then.
unfoldable pub detect_loop : TcRule → List RuleType → RuleType × TcRule
unfolding type_traits
detect_loop rule [] = (alien, rule)
detect_loop rule (i ∷ rest) =
    let later = detect_loop rule rest in
    if ltb 0 (type_traits i) && type_traits i == rule.traits
    then (if same_type i route_dft_goto
        then (route_goto, record rule { traits = type_traits route_goto })
        else (i, rule))
    else later

unfoldable pub tc_rule_detect : TcRule → RuleType × TcRule
unfolding detect_loop
tc_rule_detect rule = detect_loop rule all_types

unfoldable pub tc_rule_validate : TcRule → Bool × TcRule
unfolding tc_rule_detect
tc_rule_validate rule =
    let (detected, rule') = tc_rule_detect rule in
    if same_type rule'.type detected then (true, rule') else (false, record rule' { type = alien })

unfoldable pub tc_rule_mark_alien : TcRule → Ret TcRule
unfolding tc_rule_set_type
tc_rule_mark_alien rule = tc_rule_set_type rule alien

abbrev pub tc_rule_state_str : RuleType → String
tc_rule_state_str unspec = "unspec"
tc_rule_state_str alien = "alien"
tc_rule_state_str forward = "forward"
tc_rule_state_str route_trap = "route_trap"
tc_rule_state_str route_goto = "route_goto"
tc_rule_state_str route_dft_goto = "route_goto"
tc_rule_state_str ttl_check = "ttl_check"
