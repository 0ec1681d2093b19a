-- ===== src/Search/Erase.antt =====
-- `rb_erase` of src/rbtree.c: what it is relied on for, and what a lookup finds afterwards.
use flower_route.Base.{
  ◌≡◌, ◌≢◌, refl, sym, ap, ◌∙◌, Ordering, none, some, List, [], ◌∷◌, ◌++◌, inl, inr, Ordering-cases,
  All-append, All-append_left, All-append_right, arith,
}
use flower_route.Search.{Tree, leaf, node, in_order, lookup}
use flower_route.Search.Order.{IsOrder, Under, IsSorted, AllFit}
use flower_route.Search.Lists.{
  find, find-Above, find-append_none, find-Under, IsSorted-append_right, Under-split,
}
use flower_route.Search.Lookup.{IsSearch, lookup-find}

module _ {A K : Type 0} (key : A → K) {cmp : K → K → Ordering} {Fits : K → Type 0}
    (o : IsOrder Fits cmp) where
  -- On a search tree, the node of a key is taken out and the others keep their order.
  abbrev pub Erases : (K → Tree A → Tree A) → Type 0
  Erases rb_erase =
      (t : Tree A) (xs : List A) (x : A) (ys : List A)
      → IsSearch key cmp Fits t
      → in_order t ≡ xs ++ x ∷ ys
      → in_order (rb_erase (key x) t) ≡ xs ++ ys

  -- The node that is found stands somewhere in the order.
  find_split :
      (k : K) (ws : List A) (x : A)
      → find key cmp k ws ≡ some x
      → (xs : List A) × (ys : List A) × (ws ≡ xs ++ x ∷ ys)
  unfolding find
  find_split k [] x e = absurd (ground arith)
  find_split k (w ∷ ws) x e =
      let later : find key cmp k ws ≡ some x
          → (xs : List A) × (ys : List A) × (w ∷ ws ≡ xs ++ x ∷ ys) =
        λ e'. let (xs, ys, same) = find_split k ws x e' in (w ∷ xs, ys, ap (λ vs. w ∷ vs) same) in
      elim (Ordering-cases (cmp k (key w))) [
        | inl h ↦ later (rw (find, h) at e)
        | inr (inl h) ↦
            let here : some w ≡ some x = rw (find, h) at e in
            let same : w ≡ x = cc in ([], ws, ap (λ v. v ∷ ws) same)
        | inr (inr h) ↦ later (rw (find, h) at e)
      ]

  IsSorted-without :
      (xs : List A) (x : A) (ys : List A)
      → IsSorted key cmp (xs ++ x ∷ ys)
      → IsSorted key cmp (xs ++ ys)
  IsSorted-without [] x ys s = s.1
  IsSorted-without (w ∷ xs) x ys s = (
    All-append _ xs ys (All-append_left _ xs (x ∷ ys) s.0) (All-append_right _ xs (x ∷ ys) s.0).1,
    IsSorted-without xs x ys s.1,
  )

  find-without :
      (j : K) (xs : List A) (x : A) (ys : List A)
      → cmp j (key x) ≢ Ordering.eq
      → find key cmp j (xs ++ x ∷ ys) ≡ find key cmp j (xs ++ ys)
  unfolding find
  find-without j [] x ys d = elim (Ordering-cases (cmp j (key x))) [
    | inl h ↦ rw (find, h) refl
    | inr (inl h) ↦ absurd (d h)
    | inr (inr h) ↦ rw (find, h) refl
  ]
  find-without j (w ∷ xs) x ys d = elim (Ordering-cases (cmp j (key w))) [
    | inl h ↦ rw (find, h) (find-without j xs x ys d)
    | inr (inl h) ↦ rw (find, h) refl
    | inr (inr h) ↦ rw (find, h) (find-without j xs x ys d)
  ]

  -- A tree without one entry: it is a search tree, the entry's key is not found, and every other key
  -- finds what it found.
  pub record Erased (x : A) (t t' : Tree A) : Type 0 where
    pub table : IsSearch key cmp Fits t'
    pub gone : lookup key cmp (key x) t' ≡ none
    pub others :
        (j : K) → Fits j → cmp j (key x) ≢ Ordering.eq → lookup key cmp j t' ≡ lookup key cmp j t

  split-Erased :
      (x : A) (t t' : Tree A) (xs ys : List A)
      → IsSearch key cmp Fits t
      → in_order t ≡ xs ++ x ∷ ys
      → in_order t' ≡ xs ++ ys
      → Erased x t t'
  split-Erased x t t' xs ys s before after =
      let sorted : IsSorted key cmp (xs ++ x ∷ ys) = rw before at s.sorted in
      let fit : AllFit key Fits (xs ++ x ∷ ys) = rw before at s.fit in
      let fit_left = All-append_left _ xs (x ∷ ys) fit in
      let (fx, fit_right) = All-append_right _ xs (x ∷ ys) fit in
      let table : IsSearch key cmp Fits t' = record {
        sorted = rw after (IsSorted-without xs x ys sorted);
        fit = rw after (All-append _ xs ys fit_left fit_right);
      } in
      let under = Under-split key cmp xs x ys sorted in
      let above = (IsSorted-append_right key cmp xs (x ∷ ys) sorted).0 in
      record {
        table = table;
        gone =
            lookup-find key o (key x) t' fx table
            ∙ ap (find key cmp (key x)) after
            ∙ find-append_none key cmp (key x) xs ys (find-Under key o (key x) xs fx fit_left under)
            ∙ find-Above key cmp (key x) ys above;
        others = λ j fj d.
            lookup-find key o j t' fj table
            ∙ ap (find key cmp j) after
            ∙ sym (find-without j xs x ys d)
            ∙ ap (find key cmp j) (sym before)
            ∙ sym (lookup-find key o j t fj s);
      }

  pub erase-Erased :
      (rb_erase : K → Tree A → Tree A) (x : A) (t : Tree A)
      → Erases rb_erase
      → IsSearch key cmp Fits t
      → Fits (key x)
      → lookup key cmp (key x) t ≡ some x
      → Erased x t (rb_erase (key x) t)
  erase-Erased rb_erase x t law s fx e =
      let (xs, ys, before) =
        find_split (key x) (in_order t) x (sym (lookup-find key o (key x) t fx s) ∙ e) in
      split-Erased x t (rb_erase (key x) t) xs ys s before (law t xs x ys s before)

  -- An implementation that links the nodes that stay to the right of each other.
  unfoldable pub keep : K → List A → List A
  keep k [] = []
  keep k (x ∷ xs) = elim (cmp (key x) k) [ Ordering.eq ↦ xs | _ ↦ x ∷ keep k xs ]

  abbrev chain : List A → Tree A
  chain [] = leaf
  chain (x ∷ xs) = node leaf x (chain xs)

  unfoldable pub plain_erase : K → Tree A → Tree A
  plain_erase k t = chain (keep k (in_order t))

  in_order-chain : (xs : List A) → in_order (chain xs) ≡ xs
  in_order-chain [] = refl
  in_order-chain (x ∷ xs) = ap (λ ys. x ∷ ys) (in_order-chain xs)

  keep-append :
      (xs : List A) (x : A) (ys : List A)
      → Fits (key x)
      → Under key cmp (key x) xs
      → keep (key x) (xs ++ x ∷ ys) ≡ xs ++ ys
  unfolding keep
  keep-append [] x ys fx u = rw (keep, o.self (key x) fx)
  keep-append (w ∷ xs) x ys fx u = rw (keep, u.0) (ap (λ vs. w ∷ vs) (keep-append xs x ys fx u.1))

  pub plain_erase-Erases : Erases plain_erase
  unfolding plain_erase
  plain_erase-Erases t xs x ys s before =
      let sorted : IsSorted key cmp (xs ++ x ∷ ys) = rw before at s.sorted in
      let fit : AllFit key Fits (xs ++ x ∷ ys) = rw before at s.fit in
      let fx = (All-append_right _ xs (x ∷ ys) fit).0 in
      in_order-chain (keep (key x) (in_order t))
      ∙ ap (keep (key x)) before
      ∙ keep-append xs x ys fx (Under-split key cmp xs x ys sorted)
