-- ===== src/Chains/Tests.antt =====
-- The chain table at concrete chains.
use flower_route.Base.{ℕ, ◌≡◌, refl, ◌≤◌, none, some, arith}
use flower_route.Keys.{u32cmp}
use flower_route.Search.{Tree, leaf, node, RbTree, in_order, lookup, link, insert, update}
use flower_route.Search.Lists.{find}
use flower_route.Search.Lookup.{lookup-find}
use flower_route.Keys.Orders.{u32cmp-IsOrder}
use flower_route.Chains.{
  Chain, chain_key, chain_cmp, present, reserved, chain_lookup, filter_find_available_chain_no,
}
use flower_route.Chains.Table.{IsTable, Stored}
use flower_route.Chains.Reserve.{filter_find_available_chain_no-fresh}

-- A library that leaves the tree as it is linked, and walks it.
abbrev plain_rb : RbTree Chain
plain_rb = record {
  insert_color = λ t. t;
  nodes = in_order;
  insert_color-in_order = λ t. refl;
  nodes-in_order = λ t. refl;
}

abbrev chain : ℕ → Chain
chain n = record { chain_no = n; state = present }

-- Chains 1, 5 and 6.
abbrev three : Tree Chain
three = node (node leaf (chain 1) leaf) (chain 5) (node leaf (chain 6) leaf)

three-IsTable : IsTable three
unfolding u32cmp
three-IsTable = record { sorted = ((refl, (refl, tt)), ((refl, tt), (tt, tt))); fit = omega arith }

filter_find_available_chain_no_runs :
    filter_find_available_chain_no plain_rb 5 three
    ≡ some (
      7,
      node
          (node leaf (chain 1) leaf)
          (chain 5)
          (node leaf (chain 6) (node leaf (record { chain_no = 7; state = reserved }) leaf)),
    )
unfolding filter_find_available_chain_no u32cmp lookup link insert update
filter_find_available_chain_no_runs = refl

filter_find_available_chain_no-fresh_example :
    (n : ℕ) × (t' : Tree Chain) × (filter_find_available_chain_no plain_rb 5 three ≡ some (n, t'))
    × (5 ≤ n)
    × (chain_lookup n three ≡ none)
    × Stored n reserved three t'
filter_find_available_chain_no-fresh_example =
    filter_find_available_chain_no-fresh plain_rb 5 three (omega arith) three-IsTable (omega arith)

no_three : lookup chain_key chain_cmp 3 three ≡ none
unfolding lookup u32cmp
no_three = refl

lookup-find_example :
    lookup chain_key chain_cmp 6 three ≡ find chain_key chain_cmp 6 (in_order three)
lookup-find_example = lookup-find chain_key u32cmp-IsOrder 6 three (omega arith) three-IsTable
