-- ===== src/Sched/Place.antt =====
-- `sched_basic_place` (src/sched_basic.c): the place that a rule gets is free.
use flower_route.Base.{ℕ, ◌^◌, ◌≤◌, ◌<◌, ◌≡◌, none, some, All, ◌⊎◌, inl, inr, true, leb, arith}
use flower_route.Ret.{ok}
use flower_route.AfAddr.{af_inet, af_inet6}
use flower_route.TcRule.{TcRule, forward, route_goto}
use flower_route.Keys.{position_cmp}
use flower_route.Keys.Orders.{ChainBelow31}
use flower_route.Search.{Tree, RbTree, in_order}
use flower_route.Search.Lookup.{IsSearch}
use flower_route.Chains.{Chain, reserved, chain_lookup}
use flower_route.Chains.Table.{IsTable, Stored}
use flower_route.Chains.Available.{Within28}
use flower_route.Chains.Reserve.{filter_find_available_chain_no-fresh}
use flower_route.Rules.{Rule}
use flower_route.Places.{position, obj_rule_pos_lookup, get_af_chain}
use flower_route.Places.Prio.{Room}
use flower_route.Places.Positions.{find_available_prio-free_place}
use flower_route.Sched.{sched_basic_place, place_route}

module _ (rb_chains : RbTree Chain) (rb_rules : RbTree Rule) (chains : Tree Chain)
    (rules : Tree Rule) (tcr : TcRule) where
  -- A target's rule is placed at priority 1 of a chain from 5 on that the table of chains did not
  -- have, and the table afterwards is the old one with that chain reserved, if the table is in
  -- order with numbers below 2 ^ 28.
  pub place_forward :
      tcr.type ≡ forward
      → IsTable chains
      → Within28 (in_order chains)
      → (n : ℕ) × (chains' : Tree Chain) × (sched_basic_place rb_chains rb_rules chains rules tcr
          ≡ ok (some ((n, 1), chains')))
        × (5 ≤ n)
        × (chain_lookup n chains ≡ none)
        × Stored n reserved chains chains'
  unfolding sched_basic_place
  place_forward e s w =
      let (n, chains', found, least, fresh, stored) =
        filter_find_available_chain_no-fresh rb_chains 5 chains (omega arith) s w in
      (n, chains', rw (e, found), least, fresh, stored)

  -- The chain of a family.
  abbrev pub ChainOf : ℕ → ℕ → Type 0
  ChainOf af chain_no = ((af ≡ af_inet) × (chain_no ≡ 1)) ⊎ ((af ≡ af_inet6) × (chain_no ≡ 2))

  af_chain :
      (chain_no : ℕ) → ChainOf tcr.af_addr.af chain_no → get_af_chain tcr.af_addr.af ≡ ok chain_no
  unfolding get_af_chain
  af_chain chain_no (inl (e, c)) = rw (e, c)
  af_chain chain_no (inr (e, c)) = rw (e, c)

  -- A route's rule is placed in the chain of its family, at a 16-bit priority of at least 100 that
  -- no rule of the tree has, if the tree is in order and the chain's priorities leave room for one
  -- more.
  pub place_goto :
      (chain_no : ℕ)
      → tcr.type ≡ route_goto
      → ChainOf tcr.af_addr.af chain_no
      → IsSearch position position_cmp ChainBelow31 rules
      → All (Room chain_no) (in_order rules)
      → (p : ℕ) × (sched_basic_place rb_chains rb_rules chains rules tcr
          ≡ ok (some ((chain_no, p), chains)))
        × (100 ≤ p)
        × (p < 2 ^ 16)
        × (obj_rule_pos_lookup chain_no p rules ≡ none)
  unfolding sched_basic_place place_route
  place_goto chain_no e c s room =
      let below : chain_no < 2 ^ 31 = ground arith in
      let (p, found, least, small, free) =
        find_available_prio-free_place chain_no below rb_rules 100 rules s room (omega arith) in
      let enough : leb 100 p ≡ true = ground arith in
      (p, rw e (rw (af_chain chain_no c) (rw found (rw enough))), least, small, free)
