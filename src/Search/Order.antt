-- ===== src/Search/Order.antt =====
-- What a comparison function must satisfy for a search tree to work, on the keys that occur.
use flower_route.Base.{◌≡◌, ap, ◌∙◌, Ordering, List, [], ◌∷◌, All}

-- `Fits` says which keys the laws are claimed for: the comparisons of the program are no orders on
-- the whole of their C types.
pub record IsOrder {K : Type 0} (Fits : K → Type 0) (cmp : K → K → Ordering) : Type 0 where
  pub eq_of : (a b : K) → Fits a → Fits b → cmp a b ≡ Ordering.eq → a ≡ b
  pub self : (a : K) → Fits a → cmp a a ≡ Ordering.eq
  pub lt_gt : (a b : K) → Fits a → Fits b → cmp a b ≡ Ordering.lt → cmp b a ≡ Ordering.gt
  pub gt_lt : (a b : K) → Fits a → Fits b → cmp a b ≡ Ordering.gt → cmp b a ≡ Ordering.lt
  pub lt_trans :
      (a b c : K)
      → Fits a
      → Fits b
      → Fits c
      → cmp a b ≡ Ordering.lt
      → cmp b c ≡ Ordering.lt
      → cmp a c ≡ Ordering.lt

module _ {K : Type 0} {Fits : K → Type 0} {cmp : K → K → Ordering} (o : IsOrder Fits cmp)
    (j k x : K) (fj : Fits j) (fk : Fits k) (fx : Fits x) where
  -- k < x < j
  pub between_gt : cmp k x ≡ Ordering.lt → cmp j x ≡ Ordering.gt → cmp j k ≡ Ordering.gt
  between_gt d e = o.lt_gt k j fk fj (o.lt_trans k x j fk fx fj d (o.gt_lt j x fj fx e))

  -- j < x < k
  pub between_lt : cmp k x ≡ Ordering.gt → cmp j x ≡ Ordering.lt → cmp j k ≡ Ordering.lt
  between_lt d e = o.lt_trans j x k fj fx fk e (o.gt_lt k x fk fx d)

  -- j is the root x, and k is not
  pub root_gt : cmp k x ≡ Ordering.lt → cmp j x ≡ Ordering.eq → cmp j k ≡ Ordering.gt
  root_gt d e = ap (λ i. cmp i k) (o.eq_of j x fj fx e) ∙ o.lt_gt k x fk fx d

  pub root_lt : cmp k x ≡ Ordering.gt → cmp j x ≡ Ordering.eq → cmp j k ≡ Ordering.lt
  root_lt d e = ap (λ i. cmp i k) (o.eq_of j x fj fx e) ∙ o.gt_lt k x fk fx d

module _ {A K : Type 0} (key : A → K) (cmp : K → K → Ordering) where
  abbrev pub Above : K → List A → Type 0
  Above k = All (λ y. cmp k (key y) ≡ Ordering.lt)

  abbrev pub Under : K → List A → Type 0
  Under k = All (λ y. cmp (key y) k ≡ Ordering.lt)

  abbrev pub IsSorted : List A → Type 0
  IsSorted [] = Unit
  IsSorted (x ∷ xs) = Above (key x) xs × IsSorted xs

module _ {A K : Type 0} (key : A → K) (Fits : K → Type 0) where
  abbrev pub AllFit : List A → Type 0
  AllFit = All (λ y. Fits (key y))
