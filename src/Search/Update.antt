-- ===== src/Search/Update.antt =====
-- A write through a node's pointer changes what is found under its key, and nothing else.
use flower_route.Base.{
  ◌≡◌, refl, sym, ap, Ordering, List, [], ◌∷◌, map, inl, inr, Ordering-cases, if_equal, All, arith,
}
use mathlib.Core.List.{map-append}
use mathlib.Core.Option
use flower_route.Search.{Tree, leaf, node, in_order, lookup, update}
use flower_route.Search.Order.{IsOrder, IsSorted, between_gt, between_lt, root_gt, root_lt}
use flower_route.Search.Lookup.{IsSearch, IsSearch-left, IsSearch-right, root_fits}

module _ {A K : Type 0} (key : A → K) (cmp : K → K → Ordering) where
  -- The keys alone decide whether a list is sorted.
  All-map :
      (P : K → Type 0) (xs ys : List A)
      → map key xs ≡ map key ys
      → All (λ y. P (key y)) xs
      → All (λ y. P (key y)) ys
  All-map P [] [] e h = tt
  All-map P [] (y ∷ ys) e h = cc
  All-map P (x ∷ xs) [] e h = cc
  All-map P (x ∷ xs) (y ∷ ys) e h =
      let head : key x ≡ key y = cc in (rw head at h.0, All-map P xs ys (cc) h.1)

  IsSorted-map :
      (xs ys : List A) → map key xs ≡ map key ys → IsSorted key cmp xs → IsSorted key cmp ys
  IsSorted-map [] [] e s = tt
  IsSorted-map [] (y ∷ ys) e s = cc
  IsSorted-map (x ∷ xs) [] e s = cc
  IsSorted-map (x ∷ xs) (y ∷ ys) e s =
      let head : key x ≡ key y = cc in
      (
        rw head at (All-map (λ k. cmp (key x) k ≡ Ordering.lt) xs ys (cc) s.0),
        IsSorted-map xs ys (cc) s.1,
      )

  map-update :
      (k : K) (f : A → A) (t : Tree A)
      → ((x : A) → key (f x) ≡ key x)
      → map key (in_order (update key cmp k f t)) ≡ map key (in_order t)
  unfolding update
  map-update k f leaf same = refl
  map-update k f (node l x r) same = elim (Ordering-cases (cmp k (key x))) [
    | inl e ↦ rw (e, update) (simp (map-append, map-update k f l same))
    | inr (inl e) ↦ rw (e, update) (simp (map-append, same))
    | inr (inr e) ↦ rw (e, update) (simp (map-append, map-update k f r same))
  ]

module _ {A K : Type 0} (key : A → K) {cmp : K → K → Ordering} {Fits : K → Type 0}
    (o : IsOrder Fits cmp) (k : K) (f : A → A) (fk : Fits k)
    (same : (x : A) → key (f x) ≡ key x) where
  pub update-IsSearch :
      (t : Tree A) → IsSearch key cmp Fits t → IsSearch key cmp Fits (update key cmp k f t)
  update-IsSearch t s = record {
    sorted = IsSorted-map key cmp _ _ (sym (map-update key cmp k f t same)) s.sorted;
    fit = All-map key cmp Fits _ _ (sym (map-update key cmp k f t same)) s.fit;
  }

  pub lookup-update :
      (j : K) (t : Tree A)
      → Fits j
      → IsSearch key cmp Fits t
      → lookup key cmp j (update key cmp k f t)
        ≡ if_equal (cmp j k) (Option.map f (lookup key cmp k t)) (lookup key cmp j t)
  unfolding update lookup
  lookup-update j leaf fj s = ground arith
  lookup-update j (node l x r) fj s =
      let fx = root_fits key o k l x r fk s in
      elim (Ordering-cases (cmp k (key x))) [
        | inl e ↦ ground (
          arith,
          lookup-update j l fj (IsSearch-left key o l x r s),
          between_gt o j k (key x) fj fk fx e,
          root_gt o j k (key x) fj fk fx e,
        )
        | inr (inl e) ↦ ground (arith, ap (cmp j) (o.eq_of k (key x) fk fx e), ap (cmp j) (same x))
        | inr (inr e) ↦ ground (
          arith,
          lookup-update j r fj (IsSearch-right key o l x r s),
          between_lt o j k (key x) fj fk fx e,
          root_lt o j k (key x) fj fk fx e,
        )
      ]
