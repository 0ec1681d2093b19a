-- ===== src/Places/Prio.antt =====
-- `obj_rule_find_available_prio` (src/obj_rule.c) finds a priority that no rule of the chain has.
use flower_route.Base.{
  ℕ, ◌+◌, ◌%◌, ◌^◌, ◌≤◌, ◌<◌, ◌≡◌, ◌≢◌, ◌∙◌, true, ◌||◌, ◌&&◌, ◌⊎◌, inl, inr, List, [], ◌∷◌, All,
  ltb, leb, ◌==◌, if◌then◌else◌, Bool-cases, ltb→lt, arith,
}
use flower_route.Rules.{Rule}
use flower_route.Ret.{ok}
use flower_route.Search.{Tree, RbTree, in_order}
use flower_route.Places.{prio_loop, obj_rule_find_available_prio}

-- One rule stands before another in the positional tree.
abbrev pub Before : Rule → Rule → Type 0
Before a b = (a.chain_no < b.chain_no) ⊎ ((a.chain_no ≡ b.chain_no) × (a.prio < b.prio))

abbrev pub Ordered : List Rule → Type 0
Ordered [] = Unit
Ordered (r ∷ rest) = All (Before r) rest × Ordered rest

module _ (chain_no : ℕ) where
  -- A rule of another chain, or with another priority.
  abbrev pub FreeOf : ℕ → Rule → Type 0
  FreeOf p r = r.chain_no ≡ chain_no → r.prio ≢ p

  abbrev pub Room : Rule → Type 0
  Room r = r.chain_no ≡ chain_no → r.prio + 1 < 2 ^ 16

  -- All rules of the chain in the list have a higher priority number.
  abbrev Higher : ℕ → Rule → Type 0
  Higher p r = r.chain_no ≡ chain_no → p < r.prio

  abbrev pub result : (min_prio ret : ℕ) → ℕ
  result min_prio ret = if ltb ret min_prio then min_prio else ret

  -- What is after a rule of the chain, or after a later chain.
  Higher-after :
      (p : ℕ) (r : Rule) (rest : List Rule)
      → chain_no ≤ r.chain_no
      → (r.chain_no ≡ chain_no → p ≤ r.prio)
      → All (Before r) rest
      → All (Higher p) rest
  Higher-after p r [] hc hp h = tt
  Higher-after p r (s ∷ rest) hc hp h =
      (λ e. higher_one p r s hc hp h.0 e, Higher-after p r rest hc hp h.1)
    where
      higher_one :
          (p : ℕ) (r s : Rule)
          → chain_no ≤ r.chain_no
          → (r.chain_no ≡ chain_no → p ≤ r.prio)
          → Before r s
          → s.chain_no ≡ chain_no
          → p < s.prio
      higher_one p r s hc hp (inl lt) e = absurd (omega arith)
      higher_one p r s hc hp (inr (eq, lt)) e = let le : p ≤ r.prio = hp (eq ∙ e) in omega arith

  Higher-FreeOf : (p : ℕ) (rest : List Rule) → All (Higher p) rest → All (FreeOf p) rest
  Higher-FreeOf p [] h = tt
  Higher-FreeOf p (r ∷ rest) h =
      (λ e q. let lt : p < r.prio = h.0 e in absurd (omega arith), Higher-FreeOf p rest h.1)

  -- The rules of the chain that are left have at least the priority number `ret`.
  abbrev pub Left : ℕ → List Rule → Type 0
  Left ret = All (λ r. r.chain_no ≡ chain_no → ret ≤ r.prio)

  all-Left : (rest : List Rule) → Left 0 rest
  all-Left [] = tt
  all-Left (r ∷ rest) = (λ e. omega arith, all-Left rest)

  Higher-Left : (p : ℕ) (rest : List Rule) → All (Higher p) rest → Left (p + 1) rest
  Higher-Left p [] h = tt
  Higher-Left p (r ∷ rest) h =
      (λ e. let lt : p < r.prio = h.0 e in omega arith, Higher-Left p rest h.1)

  -- What the loop finds: at least `ret`, a `uint16_t`, and free among the rules that are left.
  pub record Found (ret p : ℕ) (rest : List Rule) : Type 0 where
    pub least : ret ≤ p
    pub small : p < 2 ^ 16
    pub free : All (FreeOf p) rest

  -- The loop ends in front of a rule that is above what it has.
  stop_Found :
      (min_prio ret : ℕ) (r : Rule) (rest : List Rule)
      → min_prio < 2 ^ 16
      → ret < 2 ^ 16
      → All (Before r) rest
      → chain_no ≤ r.chain_no
      → (r.chain_no ≡ chain_no → result min_prio ret < r.prio)
      → Found ret (result min_prio ret) (r ∷ rest)
  stop_Found min_prio ret r rest hm hr o hc hp = record {
    least = ground arith;
    small = ground arith;
    free = Higher-FreeOf (result min_prio ret) (r ∷ rest) (
      hp,
      Higher-after (result min_prio ret) r rest hc
          (λ e. let lt : result min_prio ret < r.prio = hp e in omega arith) o,
    );
  }

  -- A rule of an earlier chain is passed over.
  pass_Found :
      (ret p : ℕ) (r : Rule) (rest : List Rule)
      → r.chain_no < chain_no
      → Found ret p rest
      → Found ret p (r ∷ rest)
  pass_Found ret p r rest h f = record {
    least = f.least;
    small = f.small;
    free = (λ e. absurd (omega arith), f.free);
  }

  -- The loop goes on behind a rule of the chain.
  next_Found :
      (ret p : ℕ) (r : Rule) (rest : List Rule)
      → ret ≤ r.prio
      → Found (r.prio + 1) p rest
      → Found ret p (r ∷ rest)
  next_Found ret p r rest h f =
      let le : r.prio + 1 ≤ p = f.least in
      record { least = omega arith; small = f.small; free = (λ _ q. absurd (omega arith), f.free) }

  loop_Found :
      (min_prio ret : ℕ) (rest : List Rule)
      → min_prio < 2 ^ 16
      → ret < 2 ^ 16
      → Ordered rest
      → All Room rest
      → Left ret rest
      → Found ret (result min_prio (prio_loop chain_no min_prio ret rest)) rest
  unfolding prio_loop
  loop_Found min_prio ret [] hm hr o room left = record {
    least = ground arith;
    small = ground arith;
    free = tt;
  }
  loop_Found min_prio ret (r ∷ rest) hm hr o room left =
      elim (Bool-cases (ltb r.chain_no chain_no)) [
        | inl e ↦ rw e (
            pass_Found ret _ r rest (ltb→lt r.chain_no chain_no e)
              (loop_Found min_prio ret rest hm hr o.1 room.1 left.1))
        | inr e ↦ elim (Bool-cases (ltb chain_no r.chain_no)) [
          | inl d ↦
              rw (e, d)
                (stop_Found min_prio ret r rest hm hr o.0 (ground arith)
                  (λ q. absurd (ground arith)))
          | inr d ↦
              let here : r.chain_no ≡ chain_no = ground arith in
              let fits : r.prio + 1 < 2 ^ 16 = room.0 here in
              let le : ret ≤ r.prio = left.0 here in
              elim (Bool-cases ((ret == 0) && ltb min_prio r.prio)) [
                | inl f ↦
                    rw (e, d, f)
                      (stop_Found min_prio ret r rest hm hr o.0 (omega arith) (λ _. ground arith))
                | inr f ↦ elim (Bool-cases ((r.prio == ret) || ltb ret min_prio)) [
                  | inl g ↦
                      let small : (r.prio + 1) % 2 ^ 16 ≡ r.prio + 1 = omega arith in
                      rw (e, d, f, g, small)
                        (next_Found ret _ r rest le (
                          loop_Found min_prio (r.prio + 1) rest hm fits o.1 room.1 (
                            Higher-Left r.prio rest
                              (Higher-after r.prio r rest (omega arith) (λ _. omega arith) o.0))))
                  | inr g ↦
                      let enough : leb min_prio ret ≡ true = ground arith in
                      rw (e, d, f, g, enough)
                        (stop_Found min_prio ret r rest hm hr o.0 (omega arith) (λ _. ground arith))
                ]
              ]
        ]
      ]

-- The rules of the tree are in order, and the priorities of the chain leave room for one more.
pub find_available_prio-fresh :
    (rb : RbTree Rule) (chain_no min_prio : ℕ) (tree : Tree Rule)
    → Ordered (in_order tree)
    → All (Room chain_no) (in_order tree)
    → min_prio < 2 ^ 16
    → (p : ℕ) × (obj_rule_find_available_prio rb chain_no min_prio tree ≡ ok p)
      × (min_prio ≤ p)
      × (p < 2 ^ 16)
      × All (FreeOf chain_no p) (in_order tree)
unfolding obj_rule_find_available_prio
find_available_prio-fresh rb chain_no min_prio tree o room hm =
    let f =
      loop_Found chain_no min_prio 0 (in_order tree) hm (omega arith) o room
        (all-Left chain_no (in_order tree)) in
    let p = result chain_no min_prio (prio_loop chain_no min_prio 0 (in_order tree)) in
    let reached : leb min_prio p ≡ true = ground arith in
    (p, rw (rb.nodes-in_order tree) (rw reached), ground arith, f.small, f.free)
