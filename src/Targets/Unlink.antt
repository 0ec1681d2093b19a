-- ===== src/Targets/Unlink.antt =====
-- src/obj_target.c: `obj_target_unlink_route` takes one route out of the list.
use mathlib.Core.Path.{subst}
use flower_route.Base.{
  All-append, ℕ, zero, suc, ◌<◌, ◌≡◌, refl, sym, ap, ◌∙◌, false, Option, none, some, List, [], ◌∷◌,
  ◌++◌, ◌==◌, ==_refl, if◌then◌else◌, length, All-append_left, All-append_right, arith,
}
use flower_route.Targets.{
  Routes, set_next, set_prev, is_route, take_out, unlink_loop, obj_target_unlink_route,
}
use flower_route.Targets.Listed.{
  Leads, last_of, last_route_of, NotIn, IsDistinct, Spells, swapped, last_of-All, set_next_same,
  set_next_other, Leads-set_next,
}

-- The facts about a list in which `r` stands between two others.
record Around (before : List ℕ) (r : ℕ) (rest : List ℕ) : Type 0 where
  r_before : NotIn r before
  r_after : NotIn r rest
  whole : IsDistinct (before ++ r ∷ rest)
  shorter : IsDistinct (before ++ rest)

Distinct-Around :
    (before : List ℕ) (r : ℕ) (rest : List ℕ)
    → IsDistinct (before ++ r ∷ rest)
    → Around before r rest
Distinct-Around [] r rest d = record { r_before = tt; r_after = d.0; whole = d; shorter = d.1 }
Distinct-Around (x ∷ before) r rest d =
    let a = Distinct-Around before r rest d.1 in
    let left = All-append_left (λ y. (y == x) ≡ false) before (r ∷ rest) d.0 in
    let right = All-append_right (λ y. (y == x) ≡ false) before (r ∷ rest) d.0 in
    record {
      r_before = (swapped r x right.0, a.r_before);
      r_after = a.r_after;
      whole = d;
      shorter = (All-append (λ y. (y == x) ≡ false) before rest left right.1, a.shorter);
    }

-- The pointer before `r` is led past it.
splice :
    (next : ℕ → Option ℕ) (p : Option ℕ) (x : ℕ) (xs : List ℕ) (r : ℕ) (rest : List ℕ)
    → IsDistinct (x ∷ (xs ++ r ∷ rest))
    → Leads next p (x ∷ (xs ++ r ∷ rest))
    → Leads (set_next r none (set_next (last_of x xs) (next r) next)) p (x ∷ (xs ++ rest))
splice next p x [] r rest d h =
    let a = Distinct-Around (x ∷ []) r rest d in
    let n1 = set_next x (next r) next in
    let here : set_next r none n1 x ≡ next r =
      set_next_other r none n1 x a.r_before.0 ∙ set_next_same x (next r) next in
    (
      h.0,
      subst (λ o. Leads (set_next r none n1) o rest) (sym here)
          (Leads-set_next r none n1 (next r) rest a.r_after
            (Leads-set_next x (next r) next (next r) rest d.0.1 h.1.1)),
    )
splice next p x (y ∷ ys) r rest d h =
    let a = Distinct-Around (x ∷ y ∷ ys) r rest d in
    let n1 = set_next (last_of y ys) (next r) next in
    let inner : (x == last_of y ys) ≡ false = swapped (last_of y ys) x (
      last_of-All (λ z. (z == x) ≡ false) y ys
        (All-append_left (λ z. (z == x) ≡ false) (y ∷ ys) (r ∷ rest) d.0)) in
    let here : set_next r none n1 x ≡ next x =
      set_next_other r none n1 x a.r_before.0
      ∙ set_next_other (last_of y ys) (next r) next x inner in
    (
      h.0,
      subst (λ o. Leads (set_next r none n1) o (y ∷ (ys ++ rest))) (sym here)
          (splice next (next x) y ys r rest d.1 h.1),
    )

last_of-append :
    (x : ℕ) (xs : List ℕ) (y : ℕ) (ys : List ℕ) → last_of x (xs ++ y ∷ ys) ≡ last_of y ys
last_of-append x [] y ys = refl
last_of-append x (z ∷ xs) y ys = last_of-append z xs y ys

last_of-nil : (x : ℕ) (xs : List ℕ) → last_of x (xs ++ []) ≡ last_of x xs
last_of-nil x [] = refl
last_of-nil x (y ∷ ys) = last_of-nil y ys

-- The last route after `r` has been taken out.
last_after :
    (before : List ℕ) (r : ℕ) (rest : List ℕ)
    → NotIn r rest
    → (if is_route (last_route_of (before ++ r ∷ rest)) r
        then last_route_of before
        else last_route_of (before ++ r ∷ rest))
      ≡ last_route_of (before ++ rest)
last_after [] r [] n = rw (==_refl r)
last_after [] r (y ∷ ys) n = rw (last_of-All (λ z. (z == r) ≡ false) y ys n)
last_after (x ∷ xs) r [] n =
    ap (λ z. if z == r then some (last_of x xs) else some z) (last_of-append x xs r [])
    ∙ rw (==_refl r) (ap some (sym (last_of-nil x xs)))
last_after (x ∷ xs) r (y ∷ ys) n =
    let other : (last_of y ys == r) ≡ false = last_of-All (λ z. (z == r) ≡ false) y ys n in
    ap (λ z. if z == r then some (last_of x xs) else some z) (last_of-append x xs r (y ∷ ys))
    ∙ rw (other) (ap some (sym (last_of-append x xs y ys)))

take_out-Spells :
    (l : Routes) (before : List ℕ) (r : ℕ) (rest : List ℕ)
    → Spells l (before ++ r ∷ rest)
    → Spells (take_out r (last_route_of before) l) (before ++ rest)
take_out-Spells l [] r rest s =
    let a = Distinct-Around [] r rest s.distinct in
    record {
      leads = Leads-set_next r none l.t_next_route (l.t_next_route r) rest a.r_after s.leads.1;
      ends = ap (λ o. if is_route o r then none else o) s.ends ∙ last_after [] r rest a.r_after;
      distinct = a.shorter;
    }
take_out-Spells l (x ∷ xs) r rest s =
    let a = Distinct-Around (x ∷ xs) r rest s.distinct in
    record {
      leads = splice l.t_next_route l.first_route x xs r rest s.distinct s.leads;
      ends =
          ap (λ o. if is_route o r then some (last_of x xs) else o) s.ends
          ∙ last_after (x ∷ xs) r rest a.r_after;
      distinct = a.shorter;
    }

-- The last route that the loop has passed.
abbrev last_or : Option ℕ → List ℕ → Option ℕ
last_or prev [] = prev
last_or prev (x ∷ xs) = last_or (some x) xs

last_or-some : (x : ℕ) (xs : List ℕ) → last_or (some x) xs ≡ some (last_of x xs)
last_or-some x [] = refl
last_or-some x (y ∷ ys) = last_or-some y ys

last_or-none : (xs : List ℕ) → last_or none xs ≡ last_route_of xs
last_or-none [] = refl
last_or-none (x ∷ xs) = last_or-some x xs

loop_ends : (fuel r : ℕ) (prev : Option ℕ) (l : Routes) → unlink_loop fuel r prev none l ≡ some l
unfolding unlink_loop
loop_ends zero r prev l = refl
loop_ends (suc fuel) r prev l = refl

at_route :
    (fuel r : ℕ) (prev : Option ℕ) (l : Routes)
    → unlink_loop (suc fuel) r prev (some r) l ≡ some (take_out r prev l)
unfolding unlink_loop
at_route fuel r prev l =
    let l' = take_out r prev l in
    let freed : l'.t_next_route r ≡ none =
      set_next_same r none (set_prev prev (l.t_next_route r) l).t_next_route in
    let other = unlink_loop fuel r (some r) (l.t_next_route r) l in
    ap (λ b. if b then unlink_loop fuel r prev (l'.t_next_route r) l' else other) (==_refl r)
    ∙ ap (λ o. unlink_loop fuel r prev o l') freed
    ∙ loop_ends fuel r prev l'

past_route :
    (fuel r x : ℕ) (prev : Option ℕ) (l : Routes)
    → (x == r) ≡ false
    → unlink_loop (suc fuel) r prev (some x) l ≡ unlink_loop fuel r (some x) (l.t_next_route x) l
unfolding unlink_loop
past_route fuel r x prev l e = rw (e)

-- The loop finds the route behind what it has passed.
unlink_loop-take_out :
    (fuel : ℕ) (l : Routes) (prev p : Option ℕ) (before : List ℕ) (r : ℕ) (rest : List ℕ)
    → length before < fuel
    → NotIn r before
    → Leads l.t_next_route p (before ++ r ∷ rest)
    → unlink_loop fuel r prev p l ≡ some (take_out r (last_or prev before) l)
unlink_loop-take_out zero l prev p before r rest h n s = let bad : ⊥ = omega arith in absurd bad
unlink_loop-take_out (suc fuel) l prev p [] r rest h n s =
    ap (λ o. unlink_loop (suc fuel) r prev o l) s.0 ∙ at_route fuel r prev l
unlink_loop-take_out (suc fuel) l prev p (x ∷ before) r rest h n s =
    ap (λ o. unlink_loop (suc fuel) r prev o l) s.0
    ∙ past_route fuel r x prev l n.0
    ∙ unlink_loop-take_out fuel l (some x) (l.t_next_route x) before r rest (omega arith) n.1 s.1

-- Taking out a route that is in the target's list returns, if the fuel is more than the routes in
-- front of it: the list then has the other routes in their order, with the right last one, and the
-- route itself leads nowhere.
pub obj_target_unlink_route-Spells :
    (fuel : ℕ) (l : Routes) (before : List ℕ) (r : ℕ) (rest : List ℕ)
    → length before < fuel
    → Spells l (before ++ r ∷ rest)
    → (l' : Routes) × (obj_target_unlink_route fuel r l ≡ some l')
      × Spells l' (before ++ rest)
      × (l'.t_next_route r ≡ none)
unfolding obj_target_unlink_route
obj_target_unlink_route-Spells fuel l before r rest h s =
    let a = Distinct-Around before r rest s.distinct in
    let prev = last_route_of before in
    (
      take_out r prev l,
      unlink_loop-take_out fuel l none l.first_route before r rest h a.r_before s.leads
          ∙ ap (λ o. some (take_out r o l)) (last_or-none before),
      take_out-Spells l before r rest s,
      set_next_same r none (set_prev prev (l.t_next_route r) l).t_next_route,
    )
