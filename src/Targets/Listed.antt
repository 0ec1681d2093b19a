-- ===== src/Targets/Listed.antt =====
-- src/obj_target.c: the list of a target's routes, which its pointers spell out.
use mathlib.Core.Path.{subst}
use flower_route.Base.{
  ℕ, ◌≡◌, refl, sym, ap, ◌∙◌, false, Option, none, some, List, [], ◌∷◌, ◌++◌, ◌==◌, ==_refl, All,
  arith,
}
use flower_route.Targets.{Routes, set_next, link_at, obj_target_link_route}

-- From `p` on, the pointers lead through `xs` to NULL.
abbrev pub Leads : (ℕ → Option ℕ) → Option ℕ → List ℕ → Type 0
Leads next p [] = p ≡ none
Leads next p (x ∷ xs) = (p ≡ some x) × Leads next (next x) xs

abbrev pub last_of : ℕ → List ℕ → ℕ
last_of x [] = x
last_of x (y ∷ ys) = last_of y ys

abbrev pub last_route_of : List ℕ → Option ℕ
last_route_of [] = none
last_route_of (x ∷ xs) = some (last_of x xs)

abbrev pub NotIn : ℕ → List ℕ → Type 0
NotIn r = All (λ x. (x == r) ≡ false)

abbrev pub IsDistinct : List ℕ → Type 0
IsDistinct [] = Unit
IsDistinct (x ∷ xs) = NotIn x xs × IsDistinct xs

-- The pointers spell out `xs`.
pub record Spells (l : Routes) (xs : List ℕ) : Type 0 where
  pub leads : Leads l.t_next_route l.first_route xs
  pub ends : l.last_route ≡ last_route_of xs
  pub distinct : IsDistinct xs

pub last_of-All : (P : ℕ → Type 0) (x : ℕ) (xs : List ℕ) → All P (x ∷ xs) → P (last_of x xs)
last_of-All P x [] h = h.0
last_of-All P x (y ∷ ys) h = last_of-All P y ys h.1

pub swapped : (a b : ℕ) → (a == b) ≡ false → (b == a) ≡ false
swapped a b e = ground arith

module _ (r : ℕ) (p : Option ℕ) (next : ℕ → Option ℕ) where
  pub set_next_same : set_next r p next r ≡ p
  set_next_same = rw (==_refl r)

  pub set_next_other : (x : ℕ) → (x == r) ≡ false → set_next r p next x ≡ next x
  set_next_other x e = rw (e)

  -- A write to a pointer outside the list.
  pub Leads-set_next :
      (q : Option ℕ) (xs : List ℕ) → NotIn r xs → Leads next q xs → Leads (set_next r p next) q xs
  Leads-set_next q [] n h = h
  Leads-set_next q (x ∷ xs) n h = (
    h.0,
    subst (λ o. Leads (set_next r p next) o xs) (sym (set_next_other x n.0))
        (Leads-set_next (next x) xs n.1 h.1),
  )

-- The last pointer of the list is led to a new end.
Leads-append :
    (next : ℕ → Option ℕ) (r : ℕ) (p : Option ℕ) (x : ℕ) (xs : List ℕ)
    → next r ≡ none
    → NotIn r (x ∷ xs)
    → IsDistinct (x ∷ xs)
    → Leads next p (x ∷ xs)
    → Leads (set_next (last_of x xs) (some r) next) p ((x ∷ xs) ++ r ∷ [])
Leads-append next r p x [] fresh n d h = (
  h.0,
  (set_next_same x (some r) next, set_next_other x (some r) next r (swapped x r n.0) ∙ fresh),
)
Leads-append next r p x (y ∷ ys) fresh n d h =
    let inner : (x == last_of y ys) ≡ false =
      swapped (last_of y ys) x (last_of-All (λ z. (z == x) ≡ false) y ys d.0) in
    (
      h.0,
      subst (λ o. Leads (set_next (last_of y ys) (some r) next) o ((y ∷ ys) ++ r ∷ []))
          (sym (set_next_other (last_of y ys) (some r) next x inner))
          (Leads-append next r (next x) y ys fresh n.1 d.1 h.1),
    )

last_of-append : (x r : ℕ) (xs : List ℕ) → last_of x (xs ++ r ∷ []) ≡ r
last_of-append x r [] = refl
last_of-append x r (y ∷ ys) = last_of-append y r ys

NotIn-append_one : (x r : ℕ) (xs : List ℕ) → NotIn x xs → (r == x) ≡ false → NotIn x (xs ++ r ∷ [])
NotIn-append_one x r [] n e = (e, tt)
NotIn-append_one x r (y ∷ ys) n e = (n.0, NotIn-append_one x r ys n.1 e)

IsDistinct-append_one :
    (r : ℕ) (xs : List ℕ) → NotIn r xs → IsDistinct xs → IsDistinct (xs ++ r ∷ [])
IsDistinct-append_one r [] n d = (tt, tt)
IsDistinct-append_one r (x ∷ xs) n d =
    (NotIn-append_one x r xs d.0 (swapped x r n.0), IsDistinct-append_one r xs n.1 d.1)

-- Linking a route that is in no list puts it at the end of the target's list.
pub obj_target_link_route-Spells :
    (l : Routes) (xs : List ℕ) (r : ℕ)
    → Spells l xs
    → NotIn r xs
    → l.t_next_route r ≡ none
    → Spells (obj_target_link_route r l) (xs ++ r ∷ [])
unfolding obj_target_link_route
obj_target_link_route-Spells l [] r s n fresh =
    subst (λ o. Spells (link_at o r l) (r ∷ [])) (sym s.ends)
      (record { leads = (refl, fresh); ends = refl; distinct = (tt, tt) })
obj_target_link_route-Spells l (x ∷ xs) r s n fresh =
    subst (λ o. Spells (link_at o r l) ((x ∷ xs) ++ r ∷ [])) (sym s.ends)
      (record {
        leads = Leads-append l.t_next_route r l.first_route x xs fresh n s.distinct s.leads;
        ends = ap some (sym (last_of-append x r xs));
        distinct = IsDistinct-append_one r (x ∷ xs) n s.distinct;
      })
