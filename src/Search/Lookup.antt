-- ===== src/Search/Lookup.antt =====
-- The descent of `lookup` finds what a scan of all nodes would find.
use flower_route.Base.{
  ◌≡◌, refl, sym, ap, ◌∙◌, Ordering, none, some, ◌∷◌, inl, inr, All-append_left, All-append_right,
  Ordering-cases, arith,
}
use flower_route.Search.{Tree, leaf, node, in_order, lookup}
use flower_route.Search.Order.{IsOrder, Above, Under, IsSorted, AllFit}
use flower_route.Search.Lists.{
  find, find-Above, find-append_none, find-append_left, IsSorted-append_left, IsSorted-append_right,
  Under-split, Above-trans, Under-trans, find-Under,
}

module _ {A K : Type 0} (key : A → K) (cmp : K → K → Ordering) (Fits : K → Type 0) where
  -- A tree that the descent may rely on: sorted from left to right, with keys that fit.
  pub record IsSearch (t : Tree A) : Type 0 where
    pub sorted : IsSorted key cmp (in_order t)
    pub fit : AllFit key Fits (in_order t)

module _ {A K : Type 0} (key : A → K) {cmp : K → K → Ordering} {Fits : K → Type 0}
    (o : IsOrder Fits cmp) where
  pub IsSearch-left :
      (l : Tree A) (x : A) (r : Tree A)
      → IsSearch key cmp Fits (node l x r)
      → IsSearch key cmp Fits l
  IsSearch-left l x r s = record {
    sorted = IsSorted-append_left key cmp (in_order l) (x ∷ in_order r) s.sorted;
    fit = All-append_left _ (in_order l) (x ∷ in_order r) s.fit;
  }

  pub IsSearch-right :
      (l : Tree A) (x : A) (r : Tree A)
      → IsSearch key cmp Fits (node l x r)
      → IsSearch key cmp Fits r
  IsSearch-right l x r s = record {
    sorted = (IsSorted-append_right key cmp (in_order l) (x ∷ in_order r) s.sorted).1;
    fit = (All-append_right _ (in_order l) (x ∷ in_order r) s.fit).1;
  }

  -- Where a scan of `l ++ x ∷ r` looks, by the comparison with the root.
  module _ (k : K) (l : Tree A) (x : A) (r : Tree A) (fk : Fits k)
      (s : IsSearch key cmp Fits (node l x r)) where
    pub root_fits : Fits (key x)
    root_fits = (All-append_right _ (in_order l) (x ∷ in_order r) s.fit).0

    above : Above key cmp (key x) (in_order r)
    above = (IsSorted-append_right key cmp (in_order l) (x ∷ in_order r) s.sorted).0

    pub find-lt :
        cmp k (key x) ≡ Ordering.lt
        → find key cmp k (in_order (node l x r)) ≡ find key cmp k (in_order l)
    unfolding find
    find-lt e = find-append_left key cmp k (in_order l) (x ∷ in_order r) (
        rw (e, find)
          (find-Above key cmp k (in_order r)
            (Above-trans key o k x (in_order r) fk root_fits (IsSearch-right l x r s).fit e above)))

    none_left : Under key cmp k (in_order l) → find key cmp k (in_order l) ≡ none
    none_left = find-Under key o k (in_order l) fk (IsSearch-left l x r s).fit

    pub under : Under key cmp (key x) (in_order l)
    under = Under-split key cmp (in_order l) x (in_order r) s.sorted

    pub find-gt :
        cmp k (key x) ≡ Ordering.gt
        → find key cmp k (in_order (node l x r)) ≡ find key cmp k (in_order r)
    unfolding find
    find-gt e =
        find-append_none key cmp k (in_order l) (x ∷ in_order r) (
          none_left
            (Under-trans key o k x (in_order l) fk root_fits (IsSearch-left l x r s).fit e under))
        ∙ rw (e, find)

    pub find-eq : cmp k (key x) ≡ Ordering.eq → find key cmp k (in_order (node l x r)) ≡ some x
    unfolding find
    find-eq e =
        find-append_none key cmp k (in_order l) (x ∷ in_order r)
          (none_left (rw (o.eq_of k (key x) fk root_fits e) under))
        ∙ rw (e, find)

  -- On a search tree the lookup loop agrees with a scan of every node.
  pub lookup-find :
      (k : K) (t : Tree A)
      → Fits k
      → IsSearch key cmp Fits t
      → lookup key cmp k t ≡ find key cmp k (in_order t)
  unfolding lookup find
  lookup-find k leaf fk s = refl
  lookup-find k (node l x r) fk s = elim (Ordering-cases (cmp k (key x))) [
    | inl e ↦
        rw (e, lookup) (lookup-find k l fk (IsSearch-left l x r s) ∙ sym (find-lt k l x r fk s e))
    | inr (inl e) ↦ rw (e, lookup) (sym (find-eq k l x r fk s e))
    | inr (inr e) ↦
        rw (e, lookup) (lookup-find k r fk (IsSearch-right l x r s) ∙ sym (find-gt k l x r fk s e))
  ]

  -- What is found under a key has that key.
  pub lookup_key :
      (k : K) (t : Tree A) (x : A)
      → Fits k
      → IsSearch key cmp Fits t
      → lookup key cmp k t ≡ some x
      → key x ≡ k
  unfolding lookup
  lookup_key k leaf x fk s h = cc
  lookup_key k (node l y r) x fk s h = elim (Ordering-cases (cmp k (key y))) [
    | inl e ↦ lookup_key k l x fk (IsSearch-left l y r s) (ground arith)
    | inr (inl e) ↦
        let same : y ≡ x = ground arith in
        ap key (sym same) ∙ sym (o.eq_of k (key y) fk (root_fits k l y r fk s) e)
    | inr (inr e) ↦ lookup_key k r x fk (IsSearch-right l y r s) (ground arith)
  ]
