-- ===== src/Search/Insert.antt =====
-- The descent of `link` puts the new node at its place in the order, or finds the key taken.
use flower_route.Base.{
  ◌≡◌, refl, sym, ap, ◌∙◌, Ordering, true, false, none, some, List, [], ◌∷◌, ◌++◌, inl, inr,
  Ordering-cases, Option-cases, if_equal, arith,
}
use flower_route.Search.{Tree, leaf, node, in_order, lookup, link, insert, RbTree}
use flower_route.Search.Order.{IsOrder, Above, Under, IsSorted, AllFit}
use flower_route.Search.Lists.{find, place, Above-trans, Under-trans}
use flower_route.Search.Lookup.{
  IsSearch, IsSearch-left, IsSearch-right, root_fits, under, find-lt, find-gt, find-eq, lookup-find,
}

module _ {A K : Type 0} (key : A → K) (cmp : K → K → Ordering) (a : A) where
  place-append_lt :
      (xs : List A) (x : A) (ys : List A)
      → cmp (key a) (key x) ≡ Ordering.lt
      → place key cmp a (xs ++ x ∷ ys) ≡ place key cmp a xs ++ x ∷ ys
  unfolding place
  place-append_lt [] x ys e = rw (e, place)
  place-append_lt (w ∷ xs) x ys e = ground (arith, place-append_lt xs x ys e)

  pub AllFit-place :
      (Fits : K → Type 0) (xs : List A)
      → Fits (key a)
      → AllFit key Fits xs
      → AllFit key Fits (place key cmp a xs)
  unfolding place
  AllFit-place Fits [] fa f = (fa, tt)
  AllFit-place Fits (x ∷ xs) fa f = elim (Ordering-cases (cmp (key a) (key x))) [
    | inl e ↦ rw (e, place) (fa, f)
    | inr (inl e) ↦ rw (e, place) (f.0, AllFit-place Fits xs fa f.1)
    | inr (inr e) ↦ rw (e, place) (f.0, AllFit-place Fits xs fa f.1)
  ]

  Above-place :
      (k : K) (xs : List A)
      → cmp k (key a) ≡ Ordering.lt
      → Above key cmp k xs
      → Above key cmp k (place key cmp a xs)
  unfolding place
  Above-place k [] h b = (h, tt)
  Above-place k (x ∷ xs) h b = elim (Ordering-cases (cmp (key a) (key x))) [
    | inl e ↦ rw (e, place) (h, b)
    | inr (inl e) ↦ rw (e, place) (b.0, Above-place k xs h b.1)
    | inr (inr e) ↦ rw (e, place) (b.0, Above-place k xs h b.1)
  ]

module _ {A K : Type 0} (key : A → K) {cmp : K → K → Ordering} {Fits : K → Type 0}
    (o : IsOrder Fits cmp) (a : A) (fa : Fits (key a)) where
  place-append_gt :
      (xs : List A) (x : A) (ys : List A)
      → AllFit key Fits xs
      → Under key cmp (key a) xs
      → cmp (key a) (key x) ≡ Ordering.gt
      → place key cmp a (xs ++ x ∷ ys) ≡ xs ++ x ∷ place key cmp a ys
  unfolding place
  place-append_gt [] x ys f u e = rw (e, place)
  place-append_gt (w ∷ xs) x ys f u e =
      rw (o.lt_gt (key w) (key a) f.0 fa u.0, place)
        (ap (◌∷◌ w) (place-append_gt xs x ys f.1 u.1 e))

  place-IsSorted :
      (xs : List A)
      → AllFit key Fits xs
      → find key cmp (key a) xs ≡ none
      → IsSorted key cmp xs
      → IsSorted key cmp (place key cmp a xs)
  unfolding place find
  place-IsSorted [] f n s = (tt, tt)
  place-IsSorted (x ∷ xs) f n s = elim (Ordering-cases (cmp (key a) (key x))) [
    | inl e ↦ rw (e, place) ((e, Above-trans key o (key a) x xs fa f.0 f.1 e s.0), s)
    | inr (inl e) ↦ absurd (ground arith)
    | inr (inr e) ↦
        rw (e, place)
          (
            Above-place key cmp a (key x) xs (o.gt_lt (key a) (key x) fa f.0 e) s.0,
            place-IsSorted xs f.1 (ground arith) s.1,
          )
  ]

  -- A scan of the list with the new entry.
  find-place :
      (k : K) (xs : List A)
      → Fits k
      → AllFit key Fits xs
      → find key cmp (key a) xs ≡ none
      → find key cmp k (place key cmp a xs) ≡ if_equal (cmp k (key a)) (some a) (find key cmp k xs)
  unfolding place find
  find-place k [] fk f n = ground arith
  find-place k (x ∷ xs) fk f n = elim (Ordering-cases (cmp (key a) (key x))) [
    | inl e ↦ rw (e, place) (ground arith)
    | inr (inl e) ↦ absurd (ground arith)
    | inr (inr e) ↦
        rw (e, place)
          (elim (Ordering-cases (cmp k (key x))) [
            | inl d ↦ ground (arith, find-place k xs fk f.1)
            | inr (inl d) ↦ ground (
              arith,
              o.eq_of k (key a) fk fa,
              o.eq_of k (key x) fk f.0,
              ap (λ j. cmp j (key x)) (o.eq_of k (key x) fk f.0 d),
            )
            | inr (inr d) ↦ ground (arith, find-place k xs fk f.1)
          ])
  ]

  link-Linked :
      (t : Tree A)
      → IsSearch key cmp Fits t
      → find key cmp (key a) (in_order t) ≡ none
      → (t' : Tree A) × (link key cmp a t ≡ some t') × (in_order t' ≡ place key cmp a (in_order t))
  unfolding link place find
  link-Linked leaf s n = (node leaf a leaf, refl, refl)
  link-Linked (node l x r) s n = elim (Ordering-cases (cmp (key a) (key x))) [
    | inl e ↦
        let (l', linked, order) =
          link-Linked l (IsSearch-left key o l x r s)
            (sym (find-lt key o (key a) l x r fa s e) ∙ n) in
        (
          node l' x r,
          rw (e, link) (rw linked),
          rw order (sym (place-append_lt key cmp a (in_order l) x (in_order r) e)),
        )
    | inr (inl e) ↦ absurd (ground (arith, find-eq key o (key a) l x r fa s e))
    | inr (inr e) ↦
        let (r', linked, order) =
          link-Linked r (IsSearch-right key o l x r s)
            (sym (find-gt key o (key a) l x r fa s e) ∙ n) in
        (
          node l x r',
          rw (e, link) (rw linked),
          rw order (
              sym (
                place-append_gt (in_order l) x (in_order r) (IsSearch-left key o l x r s).fit
                  (Under-trans key o (key a) x (in_order l) fa (root_fits key o (key a) l x r fa s)
                    (IsSearch-left key o l x r s).fit e (under key o (key a) l x r fa s))
                  e)),
        )
  ]

  link_taken :
      (t : Tree A) (x : A)
      → IsSearch key cmp Fits t
      → find key cmp (key a) (in_order t) ≡ some x
      → link key cmp a t ≡ none
  unfolding link find
  link_taken leaf x s n = cc
  link_taken (node l y r) x s n = elim (Ordering-cases (cmp (key a) (key y))) [
    | inl e ↦
        rw (e, link)
          (rw (
            link_taken l x (IsSearch-left key o l y r s)
              (sym (find-lt key o (key a) l y r fa s e) ∙ n)))
    | inr (inl e) ↦ rw (e, link)
    | inr (inr e) ↦
        rw (e, link)
          (rw (
            link_taken r x (IsSearch-right key o l y r s)
              (sym (find-gt key o (key a) l y r fa s e) ∙ n)))
  ]

  module _ (rb : RbTree A) (t : Tree A) (s : IsSearch key cmp Fits t) where
    -- A key that is there already: nothing is linked, and the insertion returns 0.
    pub insert_taken :
        (x : A) → lookup key cmp (key a) t ≡ some x → insert key cmp rb a t ≡ (t, false)
    unfolding insert
    insert_taken x h = rw (link_taken t x s (sym (lookup-find key o (key a) t fa s) ∙ h), insert)

    pub insert-in_order :
        lookup key cmp (key a) t ≡ none
        → ((insert key cmp rb a t).1 ≡ true)
          × (in_order (insert key cmp rb a t).0 ≡ place key cmp a (in_order t))
    unfolding insert
    insert-in_order h =
        let (t', linked, order) = link-Linked t s (sym (lookup-find key o (key a) t fa s) ∙ h) in
        rw (linked, insert) (refl, rb.insert_color-in_order t' ∙ order)

    -- A search tree stays one, whether or not the key was there.
    pub insert-IsSearch : IsSearch key cmp Fits (insert key cmp rb a t).0
    insert-IsSearch = elim (Option-cases (lookup key cmp (key a) t)) [
      | inl h ↦
          let found = sym (lookup-find key o (key a) t fa s) ∙ h in
          record {
            sorted = rw (insert-in_order h).1 (place-IsSorted (in_order t) s.fit found s.sorted);
            fit = rw (insert-in_order h).1 (AllFit-place key cmp a Fits (in_order t) fa s.fit);
          }
      | inr (x, h) ↦ rw (insert_taken x h) s
    ]

    -- After the insertion of a fresh key into a search tree it is found, and every other key is
    -- looked up as before.
    pub lookup-insert :
        (k : K)
        → Fits k
        → lookup key cmp (key a) t ≡ none
        → lookup key cmp k (insert key cmp rb a t).0
          ≡ if_equal (cmp k (key a)) (some a) (lookup key cmp k t)
    lookup-insert k fk h =
        let found = sym (lookup-find key o (key a) t fa s) ∙ h in
        lookup-find key o k (insert key cmp rb a t).0 fk insert-IsSearch
        ∙ ap (find key cmp k) (insert-in_order h).1
        ∙ find-place k (in_order t) fk s.fit found
        ∙ ap (if_equal (cmp k (key a)) (some a)) (sym (lookup-find key o k t fk s))
