-- ===== src/Onload/Tokens.antt =====
-- src/onload.c: the do-while loop of `onload_fread_prefix` passes exactly over the characters of a
-- prefix, and always ends.
use flower_route.Base.{
  ℕ, zero, suc, ◌-◌, ◌≤◌, ◌<◌, ◌≡◌, refl, sym, ap, ◌∙◌, Bool, true, false, List, [], ◌∷◌, ◌++◌,
  ◌||◌, inl, inr, Bool-cases, ltb, ltb→lt, length, arith,
}
use mathlib.Core.Path.{subst}
use flower_route.Base.Chars.{skip_while, passed, is_digit, length-skip_while, passed-skip_while}
use flower_route.AfAddr.{take}
use flower_route.Onload.Lines.{
  is_lower_hex, is_upper_hex, is_separator, token_pass, token_end, between,
}

-- The characters of a prefix.
abbrev pub is_prefix_char : ℕ → Bool
is_prefix_char c = is_digit c || (is_lower_hex c || (is_upper_hex c || is_separator c))

-- A character of one of the passed kinds is one of a prefix.
module _ (f g : ℕ → Bool) (sub : (c : ℕ) → f c ≡ true → g c ≡ true) where
  -- Skipping the `f`s first changes nothing for one who skips the `g`s.
  skip-skip : (s : List ℕ) → skip_while g (skip_while f s) ≡ skip_while g s
  unfolding skip_while
  skip-skip [] = refl
  skip-skip (c ∷ cs) = elim (Bool-cases (f c)) [
    | inl e ↦ rw (e, sub c e) (skip-skip cs)
    | inr e ↦ rw (e)
  ]

-- A disjunct that holds, by its place among the four.
at_first : (a b : Bool) → a ≡ true → (a || b) ≡ true
at_first a b e = rw (e)

at_second : (a b c : Bool) → b ≡ true → (a || (b || c)) ≡ true
at_second true b c e = refl
at_second false b c e = at_first b c e

at_third : (a b c d : Bool) → c ≡ true → (a || (b || (c || d))) ≡ true
at_third true b c d e = refl
at_third false b c d e = at_second b c d e

at_fourth : (a b c d : Bool) → d ≡ true → (a || (b || (c || d))) ≡ true
at_fourth true b c d e = refl
at_fourth false true c d e = refl
at_fourth false false true d e = refl
at_fourth false false false d e = e

skip_while_le : (f : ℕ → Bool) (s : List ℕ) → length (skip_while f s) ≤ length s
skip_while_le f s = omega (arith, length-skip_while f s)

token_pass_le : (s : List ℕ) → length (token_pass s) ≤ length s
unfolding token_pass
token_pass_le s =
    let a = skip_while is_digit s in
    let b = skip_while is_lower_hex a in
    let c = skip_while is_upper_hex b in
    omega (
      arith,
      skip_while_le is_digit s,
      skip_while_le is_lower_hex a,
      skip_while_le is_upper_hex b,
      skip_while_le is_separator c,
    )

skip-token_pass :
    (s : List ℕ) → skip_while is_prefix_char (token_pass s) ≡ skip_while is_prefix_char s
unfolding token_pass
skip-token_pass s =
    let a = skip_while is_digit s in
    let b = skip_while is_lower_hex a in
    let c = skip_while is_upper_hex b in
    skip-skip is_separator is_prefix_char
      (λ c e. at_fourth (is_digit c) (is_lower_hex c) (is_upper_hex c) _ e) c
    ∙ skip-skip is_upper_hex is_prefix_char (λ c e. at_third (is_digit c) (is_lower_hex c) _ _ e) b
    ∙ skip-skip is_lower_hex is_prefix_char (λ c e. at_second (is_digit c) _ _ e) a
    ∙ skip-skip is_digit is_prefix_char (λ c e. at_first _ _ e) s

-- Where nothing is skipped, the first character is not of the kind.
unmoved :
    (f : ℕ → Bool) (c : ℕ) (cs : List ℕ)
    → length (c ∷ cs) ≤ length (skip_while f (c ∷ cs))
    → (f c ≡ false) × (skip_while f (c ∷ cs) ≡ c ∷ cs)
unfolding skip_while
unmoved f c cs h = elim (Bool-cases (f c)) [
  | inl e ↦
      let short : suc (length cs) ≤ length (skip_while f cs) = rw e at h in
      let bad : ⊥ = omega (arith, skip_while_le f cs) in absurd bad
  | inr e ↦ (e, rw (e))
]

unmoved_at :
    (f : ℕ → Bool) (c : ℕ) (cs s : List ℕ)
    → s ≡ c ∷ cs
    → length (c ∷ cs) ≤ length (skip_while f s)
    → (f c ≡ false) × (skip_while f s ≡ c ∷ cs)
unmoved_at f c cs s e h =
    subst
      (λ s. length (c ∷ cs) ≤ length (skip_while f s) → (f c ≡ false) × (skip_while f s ≡ c ∷ cs))
      (sym e) (unmoved f c cs) h

-- A pass that moves nothing stands at the end of the prefix.
stands :
    (s : List ℕ)
    → length s ≤ length (token_pass s)
    → (token_pass s ≡ s) × (skip_while is_prefix_char s ≡ s)
unfolding token_pass skip_while
stands [] h = (refl, refl)
stands (c ∷ cs) h =
    let s = c ∷ cs in
    let a = skip_while is_digit s in
    let b = skip_while is_lower_hex a in
    let d = skip_while is_upper_hex b in
    let la = skip_while_le is_lower_hex a in
    let lb = skip_while_le is_upper_hex b in
    let ld = skip_while_le is_separator d in
    let (n1, e1) = unmoved is_digit c cs (omega (arith, la, lb, ld)) in
    let (n2, e2) = unmoved_at is_lower_hex c cs a e1 (omega (arith, lb, ld)) in
    let (n3, e3) = unmoved_at is_upper_hex c cs b e2 (omega (arith, ld)) in
    let (n4, e4) = unmoved_at is_separator c cs d e3 h in
    let none : is_prefix_char c ≡ false = rw (n1, n2, n3, n4) in (e4, rw (none))

-- The do-while loop ends where the longest run of a prefix's characters does: with more fuel than
-- there are characters left, it stops at the first one that is not of a prefix.
pub token_end-skip_while :
    (fuel : ℕ) (s : List ℕ) → length s < fuel → token_end fuel s ≡ skip_while is_prefix_char s
unfolding token_end
token_end-skip_while zero s h = let bad : ⊥ = omega arith in absurd bad
token_end-skip_while (suc fuel) s h = elim (Bool-cases (ltb (length (token_pass s)) (length s))) [
  | inl e ↦
      rw (e)
        (token_end-skip_while fuel (token_pass s) (omega (arith, ltb→lt _ _ e)) ∙ skip-token_pass s)
  | inr e ↦ let (same, at) = stands s (ground arith) in rw (e) (same ∙ sym at)
]

pub take-append : (xs ys : List ℕ) → take (length xs) (xs ++ ys) ≡ xs
take-append [] ys = refl
take-append (x ∷ xs) ys = ap (λ t. x ∷ t) (take-append xs ys)

-- The text between the two pointers.
pub between-skip_while : (f : ℕ → Bool) (s : List ℕ) → between s (skip_while f s) ≡ passed f s
between-skip_while f s =
    let n : length s - length (skip_while f s) ≡ length (passed f s) =
      omega (arith, length-skip_while f s) in
    ap (λ n. take n s) n
    ∙ ap (take (length (passed f s))) (sym (passed-skip_while f s))
    ∙ take-append (passed f s) (skip_while f s)
