-- ===== src/TcRule/Detect.antt =====
-- Types and traits: which rules `tc_rule_detect` recognises, and that it undoes
-- `tc_rule_set_type_and_traits`.
use flower_route.Base.{
  ℕ, ◌≡◌, ◌≢◌, refl, ◌⊎◌, List, [], ◌∷◌, ◌&&◌, Bool-cases, ◌==◌, ==_iff, ltb, true, inl, inr,
  if◌then◌else◌, arith,
}
use flower_route.Ret.{ok}
use flower_route.TcRule.{
  RuleType, unspec, alien, forward, route_trap, route_goto, route_dft_goto, ttl_check, TcRule,
  type_traits, same_type, all_types, detect_loop, tc_rule_set_type, tc_rule_set_type_and_traits,
  tc_rule_detect, tc_rule_mark_alien,
}

-- The types that the daemon gives to rules of its own.
abbrev pub IsOwn : RuleType → Type 0
IsOwn unspec = ⊥
IsOwn alien = ⊥
IsOwn route_dft_goto = ⊥
IsOwn forward = Unit
IsOwn route_trap = Unit
IsOwn route_goto = Unit
IsOwn ttl_check = Unit

-- The type that the traits stand for.
abbrev pub TraitsOf : RuleType → ℕ → Type 0
TraitsOf unspec n = ⊥
TraitsOf route_dft_goto n = ⊥
TraitsOf forward n = n ≡ 0xe1
TraitsOf ttl_check n = n ≡ 0x19
TraitsOf route_trap n = n ≡ 0x0b
TraitsOf route_goto n = (n ≡ 0x07) ⊎ (n ≡ 0x05)
TraitsOf alien n = (n ≢ 0xe1) × (n ≢ 0x19) × (n ≢ 0x0b) × (n ≢ 0x07) × (n ≢ 0x05)

detected_type : (rule : TcRule) → TraitsOf (tc_rule_detect rule).0 rule.traits
unfolding tc_rule_detect
detected_type rule = ground arith

loop_keeps :
    (rule : TcRule) (types : List RuleType) → rule.traits ≢ 0x05 → (detect_loop rule types).1 ≡ rule
unfolding detect_loop type_traits
loop_keeps rule [] h = refl
loop_keeps rule (i ∷ rest) h =
    let e = loop_keeps rule rest h in
    elim (Bool-cases (ltb 0 (type_traits i) && type_traits i == rule.traits)) [
      | inl c ↦ rw c (kept_type i h c)
      | inr c ↦ rw c e
    ]
  where
    kept_type :
        (i : RuleType)
        → rule.traits ≢ 0x05
        → (ltb 0 (type_traits i) && type_traits i == rule.traits) ≡ true
        → let out : RuleType × TcRule =
            (if same_type i route_dft_goto
              then (route_goto, record rule { traits = type_traits route_goto })
              else (i, rule)) in
          out.1 ≡ rule
    kept_type route_dft_goto h c = absurd (ground arith)
    kept_type unspec h c = refl
    kept_type alien h c = refl
    kept_type forward h c = refl
    kept_type route_trap h c = refl
    kept_type route_goto h c = refl
    kept_type ttl_check h c = refl

default_goto_traits :
    (rule : TcRule) → rule.traits ≡ 0x05 → (tc_rule_detect rule).1 ≡ record rule { traits = 0x07 }
unfolding tc_rule_detect detect_loop type_traits
default_goto_traits rule e = rw e refl

-- Exactly five values of the traits are recognised, one of them as a goto without a prefix, whose
-- traits, and nothing else of it, become those of a goto with one; any other rule is alien, and every
-- other rule stays as it is.
pub tc_rule_detect_lem :
    (rule : TcRule)
    → let (type, rule') = tc_rule_detect rule in
      TraitsOf type rule.traits
      × (((rule.traits ≡ 0x05) × (rule' ≡ record rule { traits = 0x07 }))
          ⊎ ((rule.traits ≢ 0x05) × (rule' ≡ rule)))
unfolding tc_rule_detect
tc_rule_detect_lem rule = (
  detected_type rule,
  elim (Bool-cases (rule.traits == 0x05)) [
    | inl e ↦
        let five : rule.traits ≡ 0x05 = (==_iff rule.traits 0x05).0 e in
        inl (five, default_goto_traits rule five)
    | inr e ↦
        let other : rule.traits ≢ 0x05 = ground arith in
        inr (other, loop_keeps rule all_types other)
  ],
)

detect_own :
    (rule : TcRule) (type : RuleType)
    → IsOwn type
    → rule.traits ≡ type_traits type
    → tc_rule_detect rule ≡ (type, rule)
unfolding tc_rule_detect
detect_own rule forward own e = simp e
detect_own rule route_trap own e = simp e
detect_own rule route_goto own e = simp e
detect_own rule ttl_check own e = simp e
detect_own rule unspec own e = absurd own
detect_own rule alien own e = absurd own
detect_own rule route_dft_goto own e = absurd own

set_own :
    (rule : TcRule) (type : RuleType)
    → IsOwn type
    → rule.type ≡ unspec
    → rule.traits ≡ 0
    → tc_rule_set_type_and_traits rule type
      ≡ ok (record rule { type = type; traits = type_traits type })
unfolding tc_rule_set_type_and_traits
set_own rule forward own u z = simp (u, z)
set_own rule route_trap own u z = simp (u, z)
set_own rule route_goto own u z = simp (u, z)
set_own rule ttl_check own u z = simp (u, z)
set_own rule unspec own u z = absurd own
set_own rule alien own u z = absurd own
set_own rule route_dft_goto own u z = absurd own

-- A fresh rule that is given a type of the daemon's own has that type and its traits, nothing else
-- changed, and is detected as of that type, its traits unchanged.
pub detect-set_type_and_traits :
    (rule : TcRule) (type : RuleType)
    → IsOwn type
    → rule.type ≡ unspec
    → rule.traits ≡ 0
    → let rule' = record rule { type = type; traits = type_traits type } in
      (tc_rule_set_type_and_traits rule type ≡ ok rule') × (tc_rule_detect rule' ≡ (type, rule'))
detect-set_type_and_traits rule type own u z =
    (set_own rule type own u z, detect_own _ type own refl)

-- Once a rule is alien it stays so, whatever type is set.
pub set_type-mark_alien :
    (rule rule' : TcRule) (type : RuleType)
    → tc_rule_mark_alien rule ≡ ok rule'
    → (rule'.type ≡ alien) × (tc_rule_set_type rule' type ≡ ok rule')
unfolding tc_rule_mark_alien
set_type-mark_alien rule rule' type e = ground arith
