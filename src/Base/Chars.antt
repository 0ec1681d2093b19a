-- ===== src/Base/Chars.antt =====
-- Strings as lists of bytes, and what the program uses of the C library to read them. A pointer into
-- a string is the rest of it; the terminating NUL is the end of the list.
use Prim.Native.Char.{code}
use Prim.Native.String.{String}
use Prim.Native.Nat.{ℕ, ◌+◌, ◌-◌, ◌*◌, ◌^◌}
use mathlib.Core.Path.{◌≡◌, refl, ap, ◌∙◌}
use mathlib.Core.Logic.{inl, inr}
use mathlib.Core.Bool.{Bool, true, false, ◌&&◌, ◌||◌}
use mathlib.Core.Option.{Option, none, some}
use mathlib.Core.List.{List, [], ◌∷◌, ◌++◌}
use native.Mathlib.Omega.{arith}
use flower_route.Base.Tests.{Bool-cases, ==_iff, ==_refl, ltb, leb, ◌==◌, if◌then◌else◌}
use flower_route.Base.Lists.{length}

-- The bytes of a text.
abbrev pub codes : String → List ℕ
codes String.[] = []
codes (String.◌∷◌ c s) = code c ∷ codes s

-- `strcmp(a, b) == 0`
abbrev pub str_equal : List ℕ → List ℕ → Bool
str_equal [] [] = true
str_equal [] (b ∷ bs) = false
str_equal (a ∷ ss) [] = false
str_equal (a ∷ ss) (b ∷ bs) = (a == b) && str_equal ss bs

pub &&_true : (b c : Bool) → (b && c) ≡ true → (b ≡ true) × (c ≡ true)
&&_true true true e = (refl, refl)
&&_true true false e = cc
&&_true false c e = cc

pub str_equal→≡ : (s t : List ℕ) → str_equal s t ≡ true → s ≡ t
str_equal→≡ [] [] e = refl
str_equal→≡ [] (b ∷ ts) e = cc
str_equal→≡ (a ∷ ss) [] e = cc
str_equal→≡ (a ∷ ss) (b ∷ ts) e =
    let (h, rest) = &&_true (a == b) (str_equal ss ts) e in
    ap (λ x. x ∷ ss) ((==_iff a b).0 h) ∙ ap (λ xs. b ∷ xs) (str_equal→≡ ss ts rest)

pub str_equal_comm : (s t : List ℕ) → str_equal s t ≡ str_equal t s
str_equal_comm [] [] = refl
str_equal_comm [] (b ∷ ts) = refl
str_equal_comm (a ∷ ss) [] = refl
str_equal_comm (a ∷ ss) (b ∷ ts) =
    let swap : (a == b) ≡ (b == a) = ground arith in rw (swap, str_equal_comm ss ts)

pub str_equal_refl : (s : List ℕ) → str_equal s s ≡ true
str_equal_refl [] = refl
str_equal_refl (a ∷ ss) = rw (==_refl a, str_equal_refl ss)

-- `while (f(*p)) p++;`, and what it passes over.
unfoldable pub skip_while : (ℕ → Bool) → List ℕ → List ℕ
skip_while f [] = []
skip_while f (c ∷ cs) = let rest = skip_while f cs in if f c then rest else c ∷ cs

unfoldable pub passed : (ℕ → Bool) → List ℕ → List ℕ
passed f [] = []
passed f (c ∷ cs) = let rest = passed f cs in if f c then c ∷ rest else []

abbrev pub is_space : ℕ → Bool
is_space c = (c == 32) || (leb 9 c && leb c 13)

abbrev pub is_digit : ℕ → Bool
is_digit c = leb 48 c && leb c 57

-- The number that the decimal digits at the front spell, after `n`.
unfoldable pub digits : ℕ → List ℕ → ℕ
digits n [] = n
digits n (c ∷ cs) = let rest = digits (10 * n + (c - 48)) cs in if is_digit c then rest else n

abbrev pub sign : List ℕ → Bool × List ℕ
sign [] = (false, [])
sign (c ∷ cs) = if c == 45 then (true, cs) else if c == 43 then (false, cs) else (false, c ∷ cs)

-- A `long` of 64 bits, in two's complement, with `strtol`'s saturation.
abbrev pub to_long : Bool → ℕ → ℕ
to_long false n = if ltb n (2 ^ 63) then n else 2 ^ 63 - 1
to_long true n = if n == 0 then 0 else if ltb n (2 ^ 63) then 2 ^ 64 - n else 2 ^ 63

abbrev pub starts_with : (ℕ → Bool) → List ℕ → Bool
starts_with f [] = false
starts_with f (c ∷ _) = f c

abbrev pub after_sign : List ℕ → Bool × List ℕ → ℕ × List ℕ
after_sign s (negative, p) =
    if starts_with is_digit p
    then (to_long negative (digits 0 p), skip_while is_digit p)
    else (0, s)

-- `strtol(s, &endptr, 10)`: the result, and the string at `endptr`.
unfoldable pub strtol : List ℕ → ℕ × List ℕ
unfolding skip_while digits
strtol s = after_sign s (sign (skip_while is_space s))

-- The string before the first byte `c`, and the one after it, if there is one.
unfoldable pub strchr : ℕ → List ℕ → List ℕ × Option (List ℕ)
strchr c [] = ([], none)
strchr c (b ∷ bs) = let rest = strchr c bs in if b == c then ([], some bs) else (b ∷ rest.0, rest.1)

abbrev pub AllChars : (ℕ → Bool) → List ℕ → Type 0
AllChars f [] = Unit
AllChars f (c ∷ cs) = (f c ≡ true) × AllChars f cs

pub length-skip_while :
    (f : ℕ → Bool) (s : List ℕ) → length s ≡ length (passed f s) + length (skip_while f s)
unfolding skip_while passed
length-skip_while f [] = refl
length-skip_while f (c ∷ cs) = elim (Bool-cases (f c)) [
  | inl e ↦ rw (e) (omega (arith, length-skip_while f cs))
  | inr e ↦ rw (e) (omega arith)
]

pub passed-skip_while : (f : ℕ → Bool) (s : List ℕ) → passed f s ++ skip_while f s ≡ s
unfolding skip_while passed
passed-skip_while f [] = refl
passed-skip_while f (c ∷ cs) = elim (Bool-cases (f c)) [
  | inl e ↦ rw (e) (ap (λ t. c ∷ t) (passed-skip_while f cs))
  | inr e ↦ rw (e)
]

-- On a run of such characters followed by something else.
pub skip_while-run :
    (f : ℕ → Bool) (s t : List ℕ)
    → AllChars f s
    → starts_with f t ≡ false
    → skip_while f (s ++ t) ≡ t
unfolding skip_while
skip_while-run f [] [] h e = refl
skip_while-run f [] (c ∷ cs) h e = rw (e)
skip_while-run f (c ∷ cs) t h e = rw (h.0) (skip_while-run f cs t h.1 e)

pub skip_while-all : (f : ℕ → Bool) (s : List ℕ) → AllChars f s → skip_while f s ≡ []
unfolding skip_while
skip_while-all f [] h = refl
skip_while-all f (c ∷ cs) h = rw (h.0) (skip_while-all f cs h.1)
