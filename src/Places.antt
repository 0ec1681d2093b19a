-- ===== src/Places.antt =====
-- Where a rule goes: the positional tree of src/obj_rule.c, the search for a free priority in it,
-- and the scheduler of src/sched_basic.c.
pub mod Positions
pub mod Prio
mod Tests
use flower_route.Base.{
  ℕ, ◌+◌, ◌%◌, ◌^◌, ◌≡◌, Bool, true, false, ◌&&◌, ◌||◌, not, Option, none, some, List, [], ◌∷◌, ltb,
  leb, ◌==◌, if◌then◌else◌,
}
use flower_route.Ret.{Ret, ok, error, aborted, assert, ◌>>=◌, ◌>>◌}
use flower_route.AfAddr.{AfAddr, af_inet, af_inet6}
use flower_route.TcRule.{
  RuleType, TcRule, forward, route_goto, route_trap, ttl_check, zero_rule, tc_rule_init,
  tc_rule_set_type_and_traits,
}
use flower_route.Keys.{Position, position_cmp}
use flower_route.Search.{Tree, RbTree, lookup, insert}
use flower_route.Chains.{Chain, filter_find_available_chain_no}
use flower_route.Rules.{Rule}

abbrev pub position : Rule → Position
position r = record { chain_no = r.chain_no; prio = r.prio }

unfoldable pub obj_rule_pos_lookup : (chain_no prio : ℕ) → Tree Rule → Option Rule
unfolding lookup
obj_rule_pos_lookup chain_no prio =
    lookup position position_cmp (record { chain_no = chain_no; prio = prio })

-- `have_pos` is set where the rule is linked.
unfoldable pub obj_rule_pos_insert : RbTree Rule → Rule → Tree Rule → Ret (Tree Rule × Bool)
unfolding insert
obj_rule_pos_insert rb r tree = do
  assert (not r.have_pos)
  ok (insert position position_cmp rb (record r { have_pos = true }) tree)

-- The loop over the rules in order, with `ret` so far.
unfoldable pub prio_loop : (chain_no min_prio : ℕ) → ℕ → List Rule → ℕ
prio_loop chain_no min_prio ret [] = ret
prio_loop chain_no min_prio ret (r ∷ rest) =
    let next = prio_loop chain_no min_prio ((r.prio + 1) % 2 ^ 16) rest in
    let same = prio_loop chain_no min_prio ret rest in
    if ltb r.chain_no chain_no
    then same
    else if ltb chain_no r.chain_no
    then ret
    else if (ret == 0) && ltb min_prio r.prio
    then ret
    else if (r.prio == ret) || ltb ret min_prio
    then next
    else if leb min_prio ret
    then ret
    else same

unfoldable pub obj_rule_find_available_prio :
    RbTree Rule → (chain_no min_prio : ℕ) → Tree Rule → Ret ℕ
unfolding prio_loop
obj_rule_find_available_prio rb chain_no min_prio tree = do
  let ret = prio_loop chain_no min_prio 0 (rb.nodes tree)
  let ret' = if ltb ret min_prio then min_prio else ret
  assert (leb min_prio ret')
  ok ret'

unfoldable pub get_af_chain : ℕ → Ret ℕ
get_af_chain af = if af == af_inet then ok 1 else if af == af_inet6 then ok 2 else aborted
