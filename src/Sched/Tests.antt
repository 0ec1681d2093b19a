-- ===== src/Sched/Tests.antt =====
-- The scheduler at concrete rules.
use flower_route.Base.{
  length, [], ℕ, ◌^◌, ◌≤◌, ◌<◌, ◌≡◌, refl, none, some, inl, List, ◌∷◌, All, arith,
}
use flower_route.Ret.{ok}
use flower_route.AfAddr.{replicate}
use flower_route.TcRule.{TcRule, zero_rule, forward, route_goto}
use flower_route.Keys.{u32cmp, position_cmp}
use flower_route.Keys.Orders.{ChainBelow31}
use flower_route.Search.{Tree, leaf, node, RbTree, in_order}
use flower_route.Search.Lookup.{IsSearch}
use flower_route.Chains.{Chain, present, reserved, chain_lookup}
use flower_route.Chains.Table.{IsTable, Stored}
use flower_route.Rules.{Call, Rule, obj_rule_alloc}
use flower_route.Places.{position, obj_rule_pos_lookup}
use flower_route.Sched.{sched_basic_place}
use flower_route.Sched.Place.{place_forward, place_goto}
use flower_route.Onload.{Prefix, PrefixList}
use flower_route.Onload.Store.{prefixes}
use flower_route.Onload.Bounds.{prefix4, prefix6}
use flower_route.Sched.Prefixes.{place_prefixes}
use flower_route.Sched.Prefixes.Table.{IsPlaceTable}
use flower_route.Sched.Prefixes.Placed.{Keeps, HasRule, place_prefixes-HasRule}
use flower_route.Sched.Startup.{onload_name, sched_basic_initial_requests}
use flower_route.Sched.Startup.Whole.{Started, initial_requests-Started}
use flower_route.Obj.{normal}

abbrev plain_rb : {A : Type 0} → RbTree A
plain_rb = record {
  insert_color = λ t. t;
  nodes = in_order;
  insert_color-in_order = λ t. refl;
  nodes-in_order = λ t. refl;
}

abbrev chains : Tree Chain
chains =
    node leaf (record { chain_no = 5; state = present })
      (node leaf (record { chain_no = 6; state = present }) leaf)

chains-IsTable : IsTable chains
unfolding u32cmp
chains-IsTable = record { sorted = ((refl, tt), (tt, tt)); fit = (omega arith, (omega arith, tt)) }

abbrev rules : Tree Rule
rules = node leaf (record obj_rule_alloc { chain_no = 1; prio = 100 }) leaf

rules-IsSearch : IsSearch position position_cmp ChainBelow31 rules
rules-IsSearch = record { sorted = (tt, tt); fit = (omega arith, tt) }

abbrev target_rule : TcRule
target_rule = record zero_rule { type = forward }

abbrev route_rule : TcRule
route_rule = record zero_rule {
  type = route_goto;
  af_addr = record { af = 2; mask_len = 24; addr = replicate 16 9 };
}

place_forward_example :
    (n : ℕ) × (chains' : Tree Chain) × (sched_basic_place plain_rb plain_rb chains rules target_rule
      ≡ ok (some ((n, 1), chains')))
    × (5 ≤ n)
    × (chain_lookup n chains ≡ none)
    × Stored n reserved chains chains'
place_forward_example =
    place_forward plain_rb plain_rb chains rules target_rule refl chains-IsTable
      (omega arith, (omega arith, tt))

place_goto_example :
    (p : ℕ) × (sched_basic_place plain_rb plain_rb chains rules route_rule
      ≡ ok (some ((1, p), chains)))
    × (100 ≤ p)
    × (p < 2 ^ 16)
    × (obj_rule_pos_lookup 1 p rules ≡ none)
place_goto_example =
    place_goto plain_rb plain_rb chains rules route_rule 1 refl (inl (refl, refl)) rules-IsSearch
      ((λ _. omega arith), tt)

-- 2000::
abbrev unicast : List ℕ
unicast = 0x20 ∷ replicate 15 0

abbrev flags_image : TcRule → List ℕ
flags_image r = r.flower_flags ∷ []

abbrev two_prefixes : List Prefix
two_prefixes =
    record { bytes = 2 ∷ 24 ∷ 0 ∷ 0 ∷ replicate 16 0 }
    ∷ record { bytes = 10 ∷ 48 ∷ 32 ∷ 1 ∷ replicate 16 0 }
    ∷ []

place_prefixes-HasRule_example :
    (tree' : Tree Rule) × (calls' : List Call) × (place_prefixes flags_image normal 3 plain_rb 0 10
        two_prefixes
        (rules, [])
      ≡ ok (tree', calls'))
    × IsPlaceTable 103 tree'
    × (length (in_order tree') ≡ 3)
    × Keeps flags_image normal 3 plain_rb 0 10 rules tree'
    × All (HasRule flags_image normal 3 plain_rb 0 10 tree') two_prefixes
place_prefixes-HasRule_example =
    place_prefixes-HasRule flags_image normal 3 plain_rb 0 10 101 two_prefixes rules []
      (prefix4 (omega arith) refl, (prefix6 (omega arith) refl, tt))
      (record { search = rules-IsSearch; ends = (omega arith, tt) }) (omega arith) (omega arith)

abbrev configured : List PrefixList
configured = record { name = onload_name; entries = two_prefixes } ∷ []

initial_requests-Started_example :
    (tree : Tree Rule) × (calls : List Call) × (sched_basic_initial_requests flags_image normal 0
        plain_rb 2 unicast configured
        (leaf, [])
      ≡ ok (tree, calls))
    × Started flags_image normal 0 plain_rb 2 unicast configured tree
unfolding prefixes
initial_requests-Started_example =
    initial_requests-Started flags_image normal 0 plain_rb 2 unicast configured
      (prefix4 (omega arith) refl, (prefix6 (omega arith) refl, tt)) (omega arith)
