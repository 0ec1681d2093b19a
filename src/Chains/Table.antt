-- ===== src/Chains/Table.antt =====
-- `filter_got_chain` and `filter_reserve_chain`: what is found in the table afterwards.
use flower_route.Base.{
  ℕ, ◌≡◌, refl, ◌∙◌, ap, Ordering, true, none, some, inl, inr, Option-cases, if_equal, arith,
}
use flower_route.Keys.Orders.{Below31, u32cmp-IsOrder}
use flower_route.Search.{Tree, RbTree}
use flower_route.Search.Lookup.{IsSearch, lookup_key}
use flower_route.Search.Insert.{insert-in_order, insert-IsSearch, lookup-insert}
use flower_route.Search.Update.{update-IsSearch, lookup-update}
use flower_route.Chains.{
  ChainState, unknown, present, reserved, Chain, chain_key, chain_cmp, chain_lookup, chain_insert,
  set_state, filter_got_chain, filter_reserve_chain,
}

-- The invariant of `chain_tree`: sorted by number, with numbers below 2 ^ 31.
abbrev pub IsTable : Tree Chain → Type 0
IsTable = IsSearch chain_key chain_cmp Below31

-- The table `t'` is `t` with chain `c` in state `st`.
pub record Stored (c : ℕ) (st : ChainState) (t t' : Tree Chain) : Type 0 where
  pub table : IsTable t'
  pub lookups :
      (k : ℕ)
      → Below31 k
      → chain_lookup k t'
        ≡ if_equal (chain_cmp k c) (some (record { chain_no = c; state = st })) (chain_lookup k t)

module _ (c : ℕ) (fc : Below31 c) where
  set_state-Stored :
      (st : ChainState) (t : Tree Chain) (ch : Chain)
      → IsTable t
      → chain_lookup c t ≡ some ch
      → Stored c st t (set_state c st t)
  unfolding chain_lookup set_state
  set_state-Stored st t ch s h = record {
    table =
        update-IsSearch chain_key u32cmp-IsOrder c (λ d. record d { state = st }) fc (λ d. refl) t
          s;
    lookups = λ k fk.
        lookup-update chain_key u32cmp-IsOrder c (λ d. record d { state = st }) fc (λ d. refl) k t
          fk s
        ∙ rw h (
            ap
              (λ n.
                if_equal (chain_cmp k c) (some (record { chain_no = n; state = st }))
                  (chain_lookup k t))
              (lookup_key chain_key u32cmp-IsOrder c t ch fc s h));
  }

  self : chain_cmp c c ≡ Ordering.eq
  self = u32cmp-IsOrder.self c fc

  Stored-found :
      (st : ChainState) (t t' : Tree Chain)
      → Stored c st t t'
      → chain_lookup c t' ≡ some (record { chain_no = c; state = st })
  Stored-found st t t' s = s.lookups c fc ∙ rw self

  Stored-trans :
      (st st' : ChainState) (t t' t'' : Tree Chain)
      → Stored c st t t'
      → Stored c st' t' t''
      → Stored c st' t t''
  Stored-trans st st' t t' t'' s s' = record {
    table = s'.table;
    lookups = λ k fk. ground (arith, s.lookups k fk, s'.lookups k fk);
  }

  module _ (rb : RbTree Chain) (t : Tree Chain) (s : IsTable t) where
    chain_insert-Stored :
        chain_lookup c t ≡ none
        → let r = chain_insert rb (record { chain_no = c; state = unknown }) t in
          (r.1 ≡ true) × Stored c unknown t r.0
    unfolding chain_insert chain_lookup
    chain_insert-Stored h = (
      (insert-in_order chain_key u32cmp-IsOrder _ fc rb t s h).0,
      record {
        table = insert-IsSearch chain_key u32cmp-IsOrder _ fc rb t s;
        lookups = λ k fk. lookup-insert chain_key u32cmp-IsOrder _ fc rb t s k fk h;
      },
    )

    -- For a table in order and a number below 2 ^ 31: the chain is in the table as present, and no
    -- other chain has changed.
    pub filter_got_chain-Stored :
        (t' : Tree Chain) × (filter_got_chain rb c t ≡ some t') × Stored c present t t'
    unfolding filter_got_chain
    filter_got_chain-Stored = elim (Option-cases (chain_lookup c t)) [
      | inl h ↦
          let (done, stored) = chain_insert-Stored h in
          let t' = (chain_insert rb (record { chain_no = c; state = unknown }) t).0 in
          (
            set_state c present t',
            rw (h, filter_got_chain) (rw done),
            Stored-trans unknown present t t' _ stored
                (set_state-Stored present t' _ stored.table (Stored-found unknown t t' stored)),
          )
      | inr (ch, h) ↦
          (set_state c present t, rw (h, filter_got_chain), set_state-Stored present t ch s h)
    ]

    -- The assertion on the second lookup holds, and the chain ends up reserved.
    pub filter_reserve_chain-Stored :
        (t' : Tree Chain) × (filter_reserve_chain rb c t ≡ some t') × Stored c reserved t t'
    unfolding filter_reserve_chain
    filter_reserve_chain-Stored =
        let (t', got, stored) = filter_got_chain-Stored in
        let found = Stored-found present t t' stored in
        (
          set_state c reserved t',
          rw (got, filter_reserve_chain) (rw found),
          Stored-trans present reserved t t' _ stored
              (set_state-Stored reserved t' _ stored.table found),
        )
