-- ===== src/Installs/Owned.antt =====
-- src/obj_route.c: a route uses and gives back only references that it holds.
use flower_route.Base.{
  Bool, ℕ, ◌+◌, ◌≤◌, ◌≡◌, Option, none, some, List, [], ◌∷◌, ◌++◌, ◌==◌, inl, inr, Bool-cases,
  arith,
}
use flower_route.TcRule.{TcRule}
use flower_route.Installs.{
  second, Call, obj_rule_ref, obj_rule_unref, obj_rule_unset_target, obj_rule_queue_request,
  obj_rule_set_target, obj_rule_prime_request, obj_rule_request, is_at, points, taken, given,
  move_target, unref_calls,
}

-- Of the rule `p`, `t` references have been taken and `g` given back before the calls: none of them
-- asks for the installation of the rule or gives it back while no reference on it is held.
abbrev pub Owned : (p t g : ℕ) → List Call → Type 0
Owned p t g [] = Unit
Owned p t g (obj_rule_ref q ∷ calls) = Owned p (is_at p q + t) g calls
Owned p t g (obj_rule_prime_request tcr found made ∷ calls) =
    Owned p (points p made + second p found made + t) g calls
Owned p t g (obj_rule_unref q ∷ calls) = (is_at p q + g ≤ t) × Owned p t (is_at p q + g) calls
Owned p t g (obj_rule_queue_request q ∷ calls) = (is_at p q + g ≤ t) × Owned p t g calls
Owned p t g (obj_rule_unset_target q ∷ calls) = Owned p t g calls
Owned p t g (obj_rule_set_target q target ∷ calls) = Owned p t g calls

Owned-cast :
    (p t g t' g' : ℕ) (ys : List Call) → t ≡ t' → g ≡ g' → Owned p t' g' ys → Owned p t g ys
Owned-cast p t g t' g' ys et eg k = rw (et, eg) k

pub Owned-append :
    (p t g t' g' : ℕ) (xs ys : List Call)
    → taken p xs + t ≡ t'
    → given p xs + g ≡ g'
    → Owned p t g xs
    → Owned p t' g' ys
    → Owned p t g (xs ++ ys)
unfolding taken given
Owned-append p t g t' g' [] ys et eg h k = Owned-cast p t g t' g' ys (omega arith) (omega arith) k
Owned-append p t g t' g' (obj_rule_ref q ∷ xs) ys et eg h k =
    Owned-append p (is_at p q + t) g t' g' xs ys (omega arith) eg h k
Owned-append p t g t' g' (obj_rule_prime_request tcr found made ∷ xs) ys et eg h k =
    Owned-append p (points p made + second p found made + t) g t' g' xs ys (omega arith) eg h k
Owned-append p t g t' g' (obj_rule_unref q ∷ xs) ys et eg h k =
    (h.0, Owned-append p t (is_at p q + g) t' g' xs ys et (omega arith) h.1 k)
Owned-append p t g t' g' (obj_rule_queue_request q ∷ xs) ys et eg h k =
    (h.0, Owned-append p t g t' g' xs ys et eg h.1 k)
Owned-append p t g t' g' (obj_rule_unset_target q ∷ xs) ys et eg h k =
    Owned-append p t g t' g' xs ys et eg h k
Owned-append p t g t' g' (obj_rule_set_target q target ∷ xs) ys et eg h k =
    Owned-append p t g t' g' xs ys et eg h k

pub Owned-unref_calls :
    (p t g : ℕ) (rule old : Option ℕ)
    → g + (points p rule + points p old) ≤ t
    → Owned p t g (unref_calls rule ++ unref_calls old)
Owned-unref_calls p t g none none e = tt
Owned-unref_calls p t g none (some b) e = (omega arith, tt)
Owned-unref_calls p t g (some a) none e = (omega arith, tt)
Owned-unref_calls p t g (some a) (some b) e = (omega arith, (omega arith, tt))

-- A first rule, and one that replaces another.
pub Owned-first :
    (p t g target_rule made : ℕ) (tcr : TcRule) (found : Bool)
    → g ≤ t
    → Owned p t g (obj_rule_ref target_rule ∷ obj_rule_request tcr found (some made))
Owned-first p t g target_rule made tcr found e = (omega arith, tt)

pub Owned-replaced :
    (p t g rule old target_rule made : ℕ) (tcr : TcRule) (found : Bool)
    → g + (is_at p rule + is_at p old) ≤ t
    → Owned p t g (
        obj_rule_ref rule
        ∷ obj_rule_ref old
        ∷ (move_target old target_rule
            ++ (obj_rule_unref rule
                ∷ (obj_rule_request tcr found (some made)
                    ++ (obj_rule_unref old ∷ obj_rule_unref rule ∷ [])))))
Owned-replaced p t g rule old target_rule made tcr found e =
    elim (Bool-cases (old == target_rule)) [
      | inl h ↦ rw h (omega arith, (omega arith, (omega arith, (omega arith, tt))))
      | inr h ↦ rw h (omega arith, (omega arith, (omega arith, (omega arith, (omega arith, tt)))))
    ]
