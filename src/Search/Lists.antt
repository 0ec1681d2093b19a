-- ===== src/Search/Lists.antt =====
-- The sorted list of the nodes of a tree, as the reference that the tree is compared with.
use flower_route.Base.{
  ◌≡◌, refl, Ordering, Option, none, some, List, [], ◌∷◌, ◌++◌, All-append_left, All-append_right,
  arith,
}
use flower_route.Search.Order.{IsOrder, Above, Under, IsSorted, AllFit}

module _ {A K : Type 0} (key : A → K) (cmp : K → K → Ordering) where
  -- The first entry that compares equal.
  unfoldable pub find : K → List A → Option A
  find k [] = none
  find k (x ∷ xs) = elim (cmp k (key x)) [ Ordering.eq ↦ some x | _ ↦ find k xs ]

  -- The entry in front of the first one that is above it.
  unfoldable pub place : A → List A → List A
  place a [] = a ∷ []
  place a (x ∷ xs) = elim (cmp (key a) (key x)) [ Ordering.lt ↦ a ∷ x ∷ xs | _ ↦ x ∷ place a xs ]

  pub find-Above : (k : K) (xs : List A) → Above key cmp k xs → find k xs ≡ none
  unfolding find
  find-Above k [] h = refl
  find-Above k (x ∷ xs) h = rw (h.0, find) (find-Above k xs h.1)

  pub find-append_none : (k : K) (xs ys : List A) → find k xs ≡ none → find k (xs ++ ys) ≡ find k ys
  unfolding find
  find-append_none k [] ys h = refl
  find-append_none k (x ∷ xs) ys h = ground (arith, find-append_none k xs ys)

  pub find-append_left : (k : K) (xs ys : List A) → find k ys ≡ none → find k (xs ++ ys) ≡ find k xs
  unfolding find
  find-append_left k [] ys h = h
  find-append_left k (x ∷ xs) ys h = ground (arith, find-append_left k xs ys h)

  pub IsSorted-append_left : (xs ys : List A) → IsSorted key cmp (xs ++ ys) → IsSorted key cmp xs
  IsSorted-append_left [] ys s = tt
  IsSorted-append_left (x ∷ xs) ys s = (All-append_left _ xs ys s.0, IsSorted-append_left xs ys s.1)

  pub IsSorted-append_right : (xs ys : List A) → IsSorted key cmp (xs ++ ys) → IsSorted key cmp ys
  IsSorted-append_right [] ys s = s
  IsSorted-append_right (x ∷ xs) ys s = IsSorted-append_right xs ys s.1

  -- In a sorted list all that stands before an entry is under it.
  pub Under-split :
      (xs : List A) (x : A) (ys : List A)
      → IsSorted key cmp (xs ++ x ∷ ys)
      → Under key cmp (key x) xs
  Under-split [] x ys s = tt
  Under-split (w ∷ xs) x ys s = ((All-append_right _ xs (x ∷ ys) s.0).0, Under-split xs x ys s.1)

module _ {A K : Type 0} (key : A → K) {cmp : K → K → Ordering} {Fits : K → Type 0}
    (o : IsOrder Fits cmp) where
  pub Above-trans :
      (k : K) (x : A) (ys : List A)
      → Fits k
      → Fits (key x)
      → AllFit key Fits ys
      → cmp k (key x) ≡ Ordering.lt
      → Above key cmp (key x) ys
      → Above key cmp k ys
  Above-trans k x [] fk fx f e h = tt
  Above-trans k x (y ∷ ys) fk fx f e h =
      (o.lt_trans k (key x) (key y) fk fx f.0 e h.0, Above-trans k x ys fk fx f.1 e h.1)

  pub Under-trans :
      (k : K) (x : A) (ys : List A)
      → Fits k
      → Fits (key x)
      → AllFit key Fits ys
      → cmp k (key x) ≡ Ordering.gt
      → Under key cmp (key x) ys
      → Under key cmp k ys
  Under-trans k x [] fk fx f e h = tt
  Under-trans k x (y ∷ ys) fk fx f e h = (
    o.lt_trans (key y) (key x) k f.0 fx fk h.0 (o.gt_lt k (key x) fk fx e),
    Under-trans k x ys fk fx f.1 e h.1,
  )

  pub find-Under :
      (k : K) (xs : List A)
      → Fits k
      → AllFit key Fits xs
      → Under key cmp k xs
      → find key cmp k xs ≡ none
  unfolding find
  find-Under k [] fk f h = refl
  find-Under k (x ∷ xs) fk f h =
      rw (o.lt_gt (key x) k f.0 fk h.0, find) (find-Under k xs fk f.1 h.1)
