-- ===== src/Installs/Balance.antt =====
-- src/obj_route.c: the references that a route takes on rules and those that it gives back.
use flower_route.Base.{
  Bool, ℕ, ◌+◌, ◌≡◌, refl, ap, ◌∙◌, Option, none, some, List, [], ◌∷◌, ◌++◌, ◌==◌, ==_iff, inl, inr,
  Bool-cases, arith,
}
use flower_route.Ret.{Ret, ok, error, aborted, ◌>>=◌}
use flower_route.TcRule.{TcRule}
use flower_route.Rules.{Rule}
use flower_route.Targets.{obj_route_prepare_rule}
use flower_route.Installs.{
  second, seconds, move_target, queue_made, AfAddr, RouteRules, Call, obj_rule_ref, obj_rule_unref,
  obj_rule_unset_target, obj_rule_queue_request, obj_rule_set_target, obj_rule_prime_request,
  obj_rule_request, needed, is_at, points, taken, given, holds, is_other, replace_rule,
  install_rule, obj_route_install,
}

pub taken-append : (p : ℕ) (xs ys : List Call) → taken p (xs ++ ys) ≡ taken p xs + taken p ys
unfolding taken
taken-append p [] ys = omega arith
taken-append p (obj_rule_ref q ∷ xs) ys = omega (arith, taken-append p xs ys)
taken-append p (obj_rule_prime_request t f q ∷ xs) ys = omega (arith, taken-append p xs ys)
taken-append p (obj_rule_unref q ∷ xs) ys = taken-append p xs ys
taken-append p (obj_rule_unset_target q ∷ xs) ys = taken-append p xs ys
taken-append p (obj_rule_queue_request q ∷ xs) ys = taken-append p xs ys
taken-append p (obj_rule_set_target q t ∷ xs) ys = taken-append p xs ys

pub given-append : (p : ℕ) (xs ys : List Call) → given p (xs ++ ys) ≡ given p xs + given p ys
unfolding given
given-append p [] ys = omega arith
given-append p (obj_rule_unref q ∷ xs) ys = omega (arith, given-append p xs ys)
given-append p (obj_rule_ref q ∷ xs) ys = given-append p xs ys
given-append p (obj_rule_prime_request t f q ∷ xs) ys = given-append p xs ys
given-append p (obj_rule_unset_target q ∷ xs) ys = given-append p xs ys
given-append p (obj_rule_queue_request q ∷ xs) ys = given-append p xs ys
given-append p (obj_rule_set_target q t ∷ xs) ys = given-append p xs ys

pub seconds-append :
    (p : ℕ) (xs ys : List Call) → seconds p (xs ++ ys) ≡ seconds p xs + seconds p ys
unfolding seconds
seconds-append p [] ys = omega arith
seconds-append p (obj_rule_prime_request t f q ∷ xs) ys = omega (arith, seconds-append p xs ys)
seconds-append p (obj_rule_ref q ∷ xs) ys = seconds-append p xs ys
seconds-append p (obj_rule_unref q ∷ xs) ys = seconds-append p xs ys
seconds-append p (obj_rule_unset_target q ∷ xs) ys = seconds-append p xs ys
seconds-append p (obj_rule_queue_request q ∷ xs) ys = seconds-append p xs ys
seconds-append p (obj_rule_set_target q t ∷ xs) ys = seconds-append p xs ys

-- What the route has held and taken, but for the second references, it holds or has given back, if
-- the call returns.
abbrev pub Balanced : ℕ → RouteRules → Ret (RouteRules × List Call) → Type 0
Balanced p r (ok x) = holds p r + taken p x.1 ≡ holds p x.0 + given p x.1 + seconds p x.1
Balanced p r error = Unit
Balanced p r aborted = Unit

no_refs-queue_made :
    (p : ℕ) (made : Option ℕ)
    → taken p (queue_made made) + given p (queue_made made) + seconds p (queue_made made) ≡ 0
unfolding taken given seconds
no_refs-queue_made p none = refl
no_refs-queue_made p (some q) = refl

move_target-balance :
    (p old target_rule : ℕ)
    → is_at p old + taken p (move_target old target_rule)
      ≡ is_at p target_rule + given p (move_target old target_rule)
unfolding taken given
move_target-balance p old target_rule = elim (Bool-cases (old == target_rule)) [
  | inl e ↦ rw e (ap (λ q. is_at p q + 0) ((==_iff old target_rule).0 e))
  | inr e ↦ rw e (omega arith)
]

move_target-seconds : (p old target_rule : ℕ) → seconds p (move_target old target_rule) ≡ 0
unfolding seconds
move_target-seconds p old target_rule = elim (Bool-cases (old == target_rule)) [
  | inl e ↦ rw e refl
  | inr e ↦ rw e refl
]

sum_of_calls :
    (p rule old target_rule new more : ℕ) (moves later : List Call)
    → is_at p old + taken p moves ≡ is_at p target_rule + given p moves
    → seconds p moves ≡ 0
    → taken p later ≡ new + more
    → seconds p later ≡ more
    → given p later ≡ is_at p rule + (is_at p old + is_at p rule)
    → is_at p rule + is_at p old + (is_at p rule + (is_at p old + taken p (moves ++ later)))
      ≡ new + is_at p target_rule + given p (moves ++ later) + seconds p (moves ++ later)
sum_of_calls p rule old target_rule new more moves later m z t s g =
    omega
      (arith, taken-append p moves later, given-append p moves later, seconds-append p moves later)

Balanced-bind :
    {A : Type 0} (p : ℕ) (r : RouteRules) (x : Ret A) (f : A → Ret (RouteRules × List Call))
    → ((a : A) → x ≡ ok a → Balanced p r (f a))
    → Balanced p r (x >>= f)
Balanced-bind p r (ok a) f h = h a refl
Balanced-bind p r error f h = tt
Balanced-bind p r aborted f h = tt

module _ (image : TcRule → List ℕ) (flags : ℕ) (mem : ℕ → Rule) (found : Bool)
    (made : Option ℕ) where
  abbrev rest : (rule old : ℕ) → TcRule → List Call
  rest rule old tcr =
      obj_rule_unref rule
      ∷ (obj_rule_request tcr found made ++ (obj_rule_unref old ∷ obj_rule_unref rule ∷ []))

  taken-rest :
      (p rule old : ℕ) (tcr : TcRule)
      → taken p (rest rule old tcr) ≡ points p made + second p found made
  unfolding taken
  taken-rest p rule old tcr =
      ap (◌+◌ (points p made + second p found made))
        (taken-append p (queue_made made) (obj_rule_unref old ∷ obj_rule_unref rule ∷ []))
      ∙ omega (arith, no_refs-queue_made p made)

  seconds-rest :
      (p rule old : ℕ) (tcr : TcRule) → seconds p (rest rule old tcr) ≡ second p found made
  unfolding seconds
  seconds-rest p rule old tcr =
      ap (◌+◌ (second p found made))
        (seconds-append p (queue_made made) (obj_rule_unref old ∷ obj_rule_unref rule ∷ []))
      ∙ omega (arith, no_refs-queue_made p made)

  given-rest :
      (p rule old : ℕ) (tcr : TcRule)
      → given p (rest rule old tcr) ≡ is_at p rule + (is_at p old + is_at p rule)
  unfolding given
  given-rest p rule old tcr =
      ap (◌+◌ (is_at p rule))
        (given-append p (queue_made made) (obj_rule_unref old ∷ obj_rule_unref rule ∷ []))
      ∙ omega (arith, no_refs-queue_made p made)

  pub replace_rule-Balanced :
      (p : ℕ) (dst : AfAddr) (rule : ℕ) (old : Option ℕ) (target_rule : ℕ) (tcr : TcRule)
      → Balanced p
          (record { dst = dst; rule = some rule; target_rule = old })
          (replace_rule image flags mem found made
            (record { dst = dst; rule = some rule; target_rule = old })
            rule
            target_rule
            tcr)
  unfolding taken given seconds
  replace_rule-Balanced p dst rule none target_rule tcr = tt
  replace_rule-Balanced p dst rule (some old) target_rule tcr =
      sum_of_calls p rule old target_rule (points p made) (second p found made)
        (move_target old target_rule) (rest rule old tcr) (move_target-balance p old target_rule)
        (move_target-seconds p old target_rule) (taken-rest p rule old tcr)
        (seconds-rest p rule old tcr) (given-rest p rule old tcr)

  pub install_rule-Balanced :
      (p : ℕ) (dst : AfAddr) (rule old : Option ℕ) (target_rule : ℕ) (tcr : TcRule)
      → (rule ≡ none → old ≡ none)
      → Balanced p
          (record { dst = dst; rule = rule; target_rule = old })
          (install_rule image flags mem found made
            (record { dst = dst; rule = rule; target_rule = old })
            rule
            target_rule
            tcr)
  unfolding taken given seconds
  install_rule-Balanced p dst none old target_rule tcr h =
      omega (arith, no_refs-queue_made p made, ap (points p) (h refl))
  install_rule-Balanced p dst (some rule) old target_rule tcr h =
      elim (Bool-cases (is_other image flags mem found made (mem rule).wanted tcr)) [
        | inl e ↦ rw e (replace_rule-Balanced p dst rule old target_rule tcr)
        | inr e ↦ rw e (omega arith)
      ]

  obj_route_install-Balanced :
      (p : ℕ) (target_rule : Option ℕ) (r : RouteRules)
      → (r.rule ≡ none → r.target_rule ≡ none)
      → Balanced p r (obj_route_install image flags mem found made target_rule r)
  unfolding obj_route_install
  obj_route_install-Balanced p target_rule r h = Balanced-bind p r (needed target_rule) _ (λ q e.
      Balanced-bind p r (obj_route_prepare_rule flags r.dst (mem q)) _
        (λ tcr e'. install_rule-Balanced p r.dst r.rule r.target_rule q tcr h))
