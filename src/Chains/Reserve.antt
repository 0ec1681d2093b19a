-- ===== src/Chains/Reserve.antt =====
-- `filter_find_available_chain_no`: the number that the scheduler gets.
use flower_route.Base.{ℕ, ◌^◌, ◌≤◌, ◌≡◌, ◌∙◌, none, some, arith}
use flower_route.Keys.Orders.{u32cmp-IsOrder}
use flower_route.Search.{Tree, RbTree, in_order}
use flower_route.Search.Lookup.{lookup-find}
use flower_route.Chains.{
  reserved, Chain, chain_key, chain_lookup, available_chain_no, available_loop, at_least,
  filter_find_available_chain_no,
}
use flower_route.Chains.Table.{IsTable, Stored, filter_reserve_chain-Stored}
use flower_route.Chains.Available.{Within28, at_least-fresh}

module _ (rb : RbTree Chain) (low : ℕ) (t : Tree Chain) (b : low ≤ 2 ^ 28) (s : IsTable t)
    (w : Within28 (in_order t)) where
  available_chain_no-fresh :
      let n = available_chain_no rb low t in (low ≤ n) × (n ≤ 2 ^ 28) × (chain_lookup n t ≡ none)
  unfolding chain_lookup
  available_chain_no-fresh =
      let (le, le28, none_has) = at_least-fresh low (in_order t) b w s.sorted in
      rw (rb.nodes-in_order t) (
        le,
        le28,
        lookup-find chain_key u32cmp-IsOrder (at_least low (available_loop low 0 (in_order t))) t
              (omega arith) s
            ∙ none_has,
      )

  -- For a table in order with numbers below 2 ^ 28, the number is at least the least one asked
  -- for, no chain had it, and the table afterwards is the old one with that chain reserved.
  pub filter_find_available_chain_no-fresh :
      (n : ℕ) × (t' : Tree Chain) × (filter_find_available_chain_no rb low t ≡ some (n, t'))
      × (low ≤ n)
      × (chain_lookup n t ≡ none)
      × Stored n reserved t t'
  unfolding filter_find_available_chain_no
  filter_find_available_chain_no-fresh =
      let n = available_chain_no rb low t in
      let (le, le28, fresh) = available_chain_no-fresh in
      let (t', done, stored) = filter_reserve_chain-Stored n (omega arith) rb t s in
      (n, t', rw (done, filter_find_available_chain_no), le, fresh, stored)
