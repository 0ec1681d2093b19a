-- ===== src/Places/Tests.antt =====
-- The search for a priority at concrete rules.
use flower_route.Base.{ℕ, ◌^◌, ◌≤◌, ◌<◌, ◌≡◌, refl, none, arith}
use flower_route.Ret.{ok}
use flower_route.Keys.{position_cmp}
use flower_route.Keys.Orders.{ChainBelow31}
use flower_route.Search.{Tree, leaf, node, RbTree, in_order}
use flower_route.Search.Lookup.{IsSearch}
use flower_route.Rules.{Rule, obj_rule_alloc}
use flower_route.Places.{position, obj_rule_pos_lookup, obj_rule_find_available_prio}
use flower_route.Places.Positions.{find_available_prio-free_place}

abbrev plain_rb : RbTree Rule
plain_rb = record {
  insert_color = λ t. t;
  nodes = in_order;
  insert_color-in_order = λ t. refl;
  nodes-in_order = λ t. refl;
}

abbrev rule_at : (chain_no prio : ℕ) → Rule
rule_at chain_no prio = record obj_rule_alloc { chain_no = chain_no; prio = prio }

-- Chain 1 has the priorities 1 and 100, chain 2 has 1.
abbrev three : Tree Rule
three = node (node leaf (rule_at 1 1) leaf) (rule_at 1 100) (node leaf (rule_at 2 1) leaf)

three-IsSearch : IsSearch position position_cmp ChainBelow31 three
unfolding position_cmp
three-IsSearch = record {
  sorted = ((refl, (refl, tt)), ((refl, tt), (tt, tt)));
  fit = (omega arith, (omega arith, (omega arith, tt)));
}

obj_rule_find_available_prio_runs : obj_rule_find_available_prio plain_rb 1 100 three ≡ ok 101
unfolding obj_rule_find_available_prio
obj_rule_find_available_prio_runs = refl

find_available_prio-free_place_example :
    (p : ℕ) × (obj_rule_find_available_prio plain_rb 1 100 three ≡ ok p)
    × (100 ≤ p)
    × (p < 2 ^ 16)
    × (obj_rule_pos_lookup 1 p three ≡ none)
find_available_prio-free_place_example =
    find_available_prio-free_place 1 (omega arith) plain_rb 100 three three-IsSearch
      (λ _. omega arith, (λ _. omega arith, (λ _. omega arith, tt))) (omega arith)
