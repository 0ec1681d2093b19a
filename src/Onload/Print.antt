-- ===== src/Onload/Print.antt =====
-- src/onload.c: a file that lists prefixes, one on each line, is read back in full.
use flower_route.Base.{
  length-append, ltb→lt, append_assoc, ==_refl, ℕ, suc, ◌+◌, ◌-◌, ◌*◌, ◌/◌, ◌%◌, ◌≤◌, ◌<◌, ◌≡◌,
  refl, ap, ◌∙◌, true, false, not, ◌||◌, some, List, [], ◌∷◌, ◌++◌, inl, inr, Bool-cases, ltb, ◌==◌,
  if◌then◌else◌, length, arith,
}
use flower_route.Base.Chars.{
  after_sign, skip_while-all, skip_while, is_digit, is_space, AllChars, skip_while-run, digits,
  sign, to_long, strtol, strchr,
}
use flower_route.AfAddr.{take}
use flower_route.Onload.Lines.{
  bounded_text, token_end, is_blank, at_end, line_prefix, buffer_size, fgets, between,
}
use flower_route.Onload.Tokens.{take-append, is_prefix_char, token_end-skip_while}

abbrev pub newline : ℕ
newline = 10

-- A number below 1000 in decimal.
abbrev pub decimal : ℕ → List ℕ
decimal n =
    if ltb n 10
    then (48 + n) ∷ []
    else if ltb n 100
    then (48 + n / 10) ∷ (48 + n % 10) ∷ []
    else (48 + n / 100) ∷ (48 + n / 10 % 10) ∷ (48 + n % 10) ∷ []

digit_lem : (d : ℕ) → d < 10 → is_digit (48 + d) ≡ true
digit_lem d h = ground arith

digits-cons : (n d : ℕ) (cs : List ℕ) → d < 10 → digits n ((48 + d) ∷ cs) ≡ digits (10 * n + d) cs
unfolding digits
digits-cons n d cs h =
    let value : 10 * n + (48 + d - 48) ≡ 10 * n + d = omega arith in
    rw (digit_lem d h) (ap (λ m. digits m cs) value)

pub decimal_digits : (n : ℕ) → n < 1000 → AllChars is_digit (decimal n)
decimal_digits n h = elim (Bool-cases (ltb n 10)) [
  | inl e ↦ rw (e) (digit_lem n (ltb→lt n 10 e), tt)
  | inr e ↦ elim (Bool-cases (ltb n 100)) [
    | inl e' ↦
        let small : n < 100 = ltb→lt n 100 e' in
        rw (e, e') (digit_lem (n / 10) (omega arith), (digit_lem (n % 10) (omega arith), tt))
    | inr e' ↦
        rw (e, e')
          (
            digit_lem (n / 100) (omega arith),
            (digit_lem (n / 10 % 10) (omega arith), (digit_lem (n % 10) (omega arith), tt)),
          )
  ]
]

pub length-decimal : (n : ℕ) → length (decimal n) ≤ 3
length-decimal n = elim (Bool-cases (ltb n 10)) [
  | inl e ↦ rw (e) (omega arith)
  | inr e ↦ elim (Bool-cases (ltb n 100)) [
    | inl e' ↦ rw (e, e') (omega arith)
    | inr e' ↦ rw (e, e') (omega arith)
  ]
]

-- The first step of the value's computation, where the number is composed of `a` and `d`.
compose :
    (a d m : ℕ) (cs : List ℕ) → d < 10 → 10 * a + d ≡ m → digits a ((48 + d) ∷ cs) ≡ digits m cs
compose a d m cs h e = digits-cons a d cs h ∙ ap (λ m. digits m cs) e

-- `strtol` on digits alone.
strtol-digits :
    (d : ℕ) (cs : List ℕ)
    → d < 10
    → AllChars is_digit cs
    → strtol ((48 + d) ∷ cs) ≡ (to_long false (digits d cs), [])
unfolding strtol
strtol-digits d cs h all =
    let s : List ℕ = (48 + d) ∷ cs in
    let space : is_space (48 + d) ≡ false = ground arith in
    let minus : (48 + d == 45) ≡ false = ground arith in
    let plus : (48 + d == 43) ≡ false = ground arith in
    let e1 : skip_while is_space s ≡ s = rw (skip_while, space) in
    let e2 : sign s ≡ (false, s) = rw (minus, plus) in
    let e4 : skip_while is_digit s ≡ [] = skip_while-all is_digit s (digit_lem d h, all) in
    ap (λ p. after_sign s (sign p)) e1
    ∙ ap (after_sign s) e2
    ∙ ap (λ b. if b then (to_long false (digits 0 s), skip_while is_digit s) else (0, s))
        (digit_lem d h)
    ∙ ap (λ v. (to_long false v, skip_while is_digit s)) (compose 0 d d cs h (omega arith))
    ∙ ap (λ p. (to_long false (digits d cs), p)) e4

strtol-value :
    (n d : ℕ) (cs : List ℕ)
    → n < 1000
    → d < 10
    → AllChars is_digit cs
    → digits d cs ≡ n
    → strtol ((48 + d) ∷ cs) ≡ (n, [])
strtol-value n d cs h hd all e =
    let small : to_long false n ≡ n = ground arith in
    strtol-digits d cs hd all ∙ ap (λ v. (to_long false v, [])) e ∙ ap (λ v. (v, [])) small

last_digit : (n : ℕ) → n % 10 < 10
last_digit n = omega arith

pub strtol-decimal : (n : ℕ) → n < 1000 → strtol (decimal n) ≡ (n, [])
unfolding digits
strtol-decimal n h = elim (Bool-cases (ltb n 10)) [
  | inl e ↦ rw (e) (strtol-value n n [] h (ltb→lt n 10 e) tt refl)
  | inr e ↦ elim (Bool-cases (ltb n 100)) [
    | inl e' ↦
        let small : n < 100 = ltb→lt n 100 e' in
        rw (e, e')
          (strtol-value n (n / 10) ((48 + n % 10) ∷ []) h (omega arith)
            (digit_lem (n % 10) (last_digit n), tt)
            (compose (n / 10) (n % 10) n [] (last_digit n) (omega arith)))
    | inr e' ↦
        rw (e, e')
          (strtol-value n (n / 100) ((48 + n / 10 % 10) ∷ (48 + n % 10) ∷ []) h (omega arith)
            (digit_lem (n / 10 % 10) (last_digit (n / 10)), (digit_lem (n % 10) (last_digit n), tt))
            (compose (n / 100) (n / 10 % 10) (n / 10) ((48 + n % 10) ∷ []) (last_digit (n / 10))
                (omega arith)
              ∙ compose (n / 10) (n % 10) n [] (last_digit n) (omega arith)))
  ]
]

pub strchr-first :
    (c : ℕ) (s t : List ℕ) → AllChars (λ b. not (b == c)) s → strchr c (s ++ c ∷ t) ≡ (s, some t)
unfolding strchr
strchr-first c [] t h = rw (==_refl c)
strchr-first c (b ∷ s) t h =
    let other : (b == c) ≡ false = ground arith in rw (other, strchr-first c s t h.1)

-- One line of the file.
pub fgets-line :
    (room : ℕ) (cur s rest : List ℕ)
    → length s < room
    → AllChars (λ b. not (b == newline)) s
    → fgets room cur (s ++ newline ∷ rest)
      ≡ (cur ++ (s ++ newline ∷ [])) ∷ fgets (buffer_size - 1) [] rest
unfolding fgets
fgets-line room cur [] rest h all = refl
fgets-line room cur (b ∷ s) rest h all =
    let other : (b == 10) ≡ false = ground arith in
    let enough : (room == 1) ≡ false = ground arith in
    rw (other, enough)
      (fgets-line (room - 1) (cur ++ b ∷ []) s rest (omega arith) all.1
        ∙ ap (λ l. l ∷ fgets (buffer_size - 1) [] rest)
            (append_assoc cur (b ∷ []) (s ++ newline ∷ [])))

not_blank : (c : ℕ) → is_prefix_char c ≡ true → is_blank c ≡ false
not_blank c e = ground arith

not_end : (c : ℕ) → is_prefix_char c ≡ true → ((c == 35) || (c == 10) || (c == 0)) ≡ false
not_end c e = ground arith

pub line_prefix-line :
    (c : ℕ) (s : List ℕ)
    → AllChars is_prefix_char (c ∷ s)
    → line_prefix (c ∷ s ++ newline ∷ []) ≡ some (c ∷ s)
unfolding line_prefix
line_prefix-line c s all =
    let t : List ℕ = c ∷ s in
    let buf : List ℕ = t ++ newline ∷ [] in
    let blank : is_blank c ≡ false = not_blank c all.0 in
    let begins : at_end buf ≡ false = not_end c all.0 in
    let e1 : skip_while is_blank buf ≡ buf = rw (skip_while, blank) in
    let e2 : token_end (suc (length buf)) buf ≡ newline ∷ [] =
      token_end-skip_while (suc (length buf)) buf (omega arith)
      ∙ skip_while-run is_prefix_char t (newline ∷ []) all refl in
    let size : length buf - 1 ≡ length t = omega (arith, length-append t (newline ∷ [])) in
    let e3 : between buf (newline ∷ []) ≡ t =
      ap (λ n. take n buf) size ∙ take-append t (newline ∷ []) in
    let e4 : bounded_text buf (newline ∷ []) ≡ some t = rw (begins) (ap some e3) in
    ap (λ b. bounded_text b (token_end (suc (length b)) b)) e1 ∙ ap (bounded_text buf) e2 ∙ e4
