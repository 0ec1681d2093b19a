-- ===== src/Sched.antt =====
-- src/sched_basic.c: the static rules that the daemon starts with, and the place of a rule.
-- `config->flower_flags` is the argument `flags`, and `tc_rule_set_dst("2000::", 3)` gives the
-- bytes that `inet_pton` writes, which are an argument too.
pub mod Place
pub mod Prefixes
pub mod Startup
mod Tests
use flower_route.Base.{
  ℕ, ◌≡◌, Bool, true, false, Option, none, some, List, [], ◌∷◌, ◌==◌, leb, if◌then◌else◌,
}
use flower_route.Ret.{Ret, ok, error, aborted, assert, ◌>>=◌, ◌>>◌}
use flower_route.AfAddr.{AfAddr, af_inet, af_inet6, zero_af_addr}
use flower_route.TcRule.{
  RuleType, unspec, alien, forward, route_trap, route_goto, route_dft_goto, ttl_check, TcRule,
  zero_rule, tc_rule_init, tc_rule_set_type_and_traits,
}
use flower_route.Search.{Tree, RbTree}
use flower_route.Chains.{Chain, filter_find_available_chain_no}
use flower_route.Rules.{Rule}
use flower_route.Places.{obj_rule_find_available_prio, get_af_chain}

-- `{0}`, `tc_rule_init`, and `af_addr.af = af`.
abbrev pub started : (flags : ℕ) → AfAddr → TcRule
started flags addr = record (tc_rule_init flags zero_rule) { af_addr = addr }

abbrev pub only_af : ℕ → AfAddr
only_af af = record zero_af_addr { af = af }

-- `tc_rule_set_dst` on an address that `inet_pton` reads.
abbrev pub goto_addr : (in6 : List ℕ) → ℕ → AfAddr
goto_addr in6 af =
    if af == af_inet6 then record { af = af_inet6; mask_len = 3; addr = in6 } else only_af af

unfoldable pub request_af_goto_rule : (flags : ℕ) (in6 : List ℕ) → ℕ → ℕ → Ret TcRule
unfolding tc_rule_init tc_rule_set_type_and_traits
request_af_goto_rule flags in6 af goto_target =
    tc_rule_set_type_and_traits
      (record (started flags (goto_addr in6 af)) { goto_target = goto_target }) route_goto

unfoldable pub request_ttl_check : (flags : ℕ) → ℕ → Ret TcRule
unfolding tc_rule_init tc_rule_set_type_and_traits
request_ttl_check flags af = tc_rule_set_type_and_traits (started flags (only_af af)) ttl_check

unfoldable pub request_onload_rule : (flags : ℕ) → AfAddr → Ret TcRule
unfolding tc_rule_init tc_rule_set_type_and_traits
request_onload_rule flags af_addr = tc_rule_set_type_and_traits (started flags af_addr) route_trap

-- The place, and the table of chains, where the new chain is reserved; `none` is `false`.
abbrev pub Placed : Type 0
Placed = Option ((ℕ × ℕ) × Tree Chain)

module _ (rb_chains : RbTree Chain) (rb_rules : RbTree Rule) (chains : Tree Chain)
    (rules : Tree Rule) where
  -- A reservation that fails is a failed assertion.
  abbrev pub new_chain : Option (ℕ × Tree Chain) → Ret Placed
  new_chain none = aborted
  new_chain (some (chain_no, chains')) = ok (some ((chain_no, 1), chains'))

  unfoldable pub place_route : TcRule → Ret Placed
  unfolding get_af_chain obj_rule_find_available_prio
  place_route tcr = do
    chain_no ← get_af_chain tcr.af_addr.af
    prio ← obj_rule_find_available_prio rb_rules chain_no 100 rules
    assert (leb 100 prio)
    ok (some ((chain_no, prio), chains))

  unfoldable pub place_by_type : TcRule → RuleType → Ret Placed
  unfolding filter_find_available_chain_no place_route
  place_by_type tcr forward = new_chain (filter_find_available_chain_no rb_chains 5 chains)
  place_by_type tcr route_goto = place_route tcr
  place_by_type tcr unspec = ok none
  place_by_type tcr alien = ok none
  place_by_type tcr route_trap = ok none
  place_by_type tcr route_dft_goto = ok none
  place_by_type tcr ttl_check = ok none

  unfoldable pub sched_basic_place : TcRule → Ret Placed
  unfolding place_by_type
  sched_basic_place tcr = place_by_type tcr tcr.type
