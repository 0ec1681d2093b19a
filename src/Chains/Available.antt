-- ===== src/Chains/Available.antt =====
-- The loop that looks for a chain number, over a sorted list of chains.
use mathlib.Core.Path.{subst}
use flower_route.Base.{
  ℕ, ◌+◌, ◌^◌, ◌≤◌, ◌<◌, ◌≡◌, ◌≢◌, refl, sym, ap, ◌∙◌, true, false, none, List, [], ◌∷◌, All, inl,
  inr, Bool-cases, ◌||◌, ◌==◌, ltb, arith,
}
use flower_route.Keys.Orders.{u32cmp_lem}
use flower_route.Search.Order.{Above, IsSorted}
use flower_route.Search.Lists.{find}
use flower_route.Chains.{Chain, chain_key, chain_cmp, next_chain_no, available_loop, at_least}

-- Chain numbers as a goto action can name them.
abbrev pub Within28 : List Chain → Type 0
Within28 = All (λ ch. ch.chain_no < 2 ^ 28)

abbrev From : ℕ → List Chain → Type 0
From ret = All (λ ch. ret ≤ ch.chain_no)

abbrev Differ : ℕ → List Chain → Type 0
Differ n = All (λ ch. ch.chain_no ≢ n)

From-Above :
    (x : Chain) (xs : List Chain)
    → x.chain_no < 2 ^ 28
    → Within28 xs
    → Above chain_key chain_cmp x.chain_no xs
    → From (x.chain_no + 1) xs
From-Above x [] fx f h = tt
From-Above x (y ∷ ys) fx f h =
    (ground (arith, u32cmp_lem x.chain_no y.chain_no), From-Above x ys fx f.1 h.1)

Differ-From : (n m : ℕ) (xs : List Chain) → From m xs → n < m → Differ n xs
Differ-From n m [] f h = tt
Differ-From n m (x ∷ xs) f h = (omega arith, Differ-From n m xs f.1 h)

module _ (low ret : ℕ) (x : Chain) (xs : List Chain) where
  available_loop_next :
      (x.chain_no == ret || ltb ret low) ≡ true
      → available_loop low ret (x ∷ xs) ≡ available_loop low (next_chain_no x.chain_no) xs
  unfolding available_loop
  available_loop_next t = rw (t, available_loop)

  available_loop_stop :
      (x.chain_no == ret || ltb ret low) ≡ false → available_loop low ret (x ∷ xs) ≡ ret
  unfolding available_loop
  available_loop_stop t = ground arith

abbrev Good : ℕ → ℕ → List Chain → ℕ → Type 0
Good low ret xs n = (ret ≤ n) × (n ≤ 2 ^ 28) × Differ (at_least low n) xs

-- Where the loop starts no further than the first chain, it ends on a number that none has.
pub available_loop-Good :
    (low ret : ℕ) (xs : List Chain)
    → From ret xs
    → Within28 xs
    → IsSorted chain_key chain_cmp xs
    → ret ≤ 2 ^ 28
    → Good low ret xs (available_loop low ret xs)
unfolding available_loop
available_loop-Good low ret [] f w s b = (omega arith, b, tt)
available_loop-Good low ret (x ∷ xs) f w s b =
    elim (Bool-cases (x.chain_no == ret || ltb ret low)) [
      | inl t ↦
          let above = From-Above x xs w.0 w.1 s.0 in
          let (le, le28, fresh) =
            available_loop-Good low (x.chain_no + 1) xs above w.1 s.1 (omega arith) in
          let e : next_chain_no x.chain_no ≡ x.chain_no + 1 = omega arith in
          subst (Good low ret (x ∷ xs))
            (sym (available_loop_next low ret x xs t ∙ ap (λ n. available_loop low n xs) e))
            (omega arith, le28, (ground arith, fresh))
      | inr t ↦
          let low_ret : (low ≤ ret) × (ret < x.chain_no) = ground arith in
          subst (Good low ret (x ∷ xs)) (sym (available_loop_stop low ret x xs t)) (
            omega arith,
            b,
            (
              ground arith,
              Differ-From (at_least low ret) (x.chain_no + 1) xs (From-Above x xs w.0 w.1 s.0)
                  (ground arith),
            ),
          )
    ]

From-zero : (xs : List Chain) → From 0 xs
From-zero [] = tt
From-zero (x ∷ xs) = (omega arith, From-zero xs)

find-Differ :
    (n : ℕ) (xs : List Chain)
    → n ≤ 2 ^ 28
    → Within28 xs
    → Differ n xs
    → find chain_key chain_cmp n xs ≡ none
unfolding find
find-Differ n [] b w d = refl
find-Differ n (x ∷ xs) b w d = ground (arith, u32cmp_lem n x.chain_no, find-Differ n xs b w.1 d.1)

-- The number is at least the least one asked for, and no chain has it.
pub at_least-fresh :
    (low : ℕ) (xs : List Chain)
    → low ≤ 2 ^ 28
    → Within28 xs
    → IsSorted chain_key chain_cmp xs
    → let n = at_least low (available_loop low 0 xs) in
      (low ≤ n) × (n ≤ 2 ^ 28) × (find chain_key chain_cmp n xs ≡ none)
at_least-fresh low xs b w s =
    let (le, le28, fresh) = available_loop-Good low 0 xs (From-zero xs) w s (omega arith) in
    (
      ground arith,
      ground arith,
      find-Differ (at_least low (available_loop low 0 xs)) xs (ground arith) w fresh,
    )
