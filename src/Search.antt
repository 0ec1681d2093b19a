-- ===== src/Search.antt =====
-- The search loops that every table of the program writes out over `struct rb_node` (src/rbtree.h):
-- `obj_link_lookup`/`obj_link_insert`, `obj_neigh_fdb_lookup`/`obj_neigh_fdb_insert`,
-- `obj_route_lookup`/`obj_route_insert`, `obj_rule_pos_*`, `obj_rule_laf_*` and
-- `chain_lookup`/`chain_insert`. They differ in the comparison and in the key alone.
-- The rebalancing and the iteration of src/rbtree.c, a copy of the Linux kernel's library, are the
-- parameter `RbTree`.
pub mod Order
pub mod Lists
pub mod Lookup
pub mod Erase
pub mod Insert
pub mod Update
use flower_route.Base.{◌≡◌, Bool, true, false, Ordering, Option, none, some, List, [], ◌∷◌, ◌++◌}
use mathlib.Core.Option

-- A subtree as `rb_left` and `rb_right` span it, with the structure that contains each node.
pub data Tree (A : Type 0) : Type 0 where
  leaf : Tree A
  node : Tree A → A → Tree A → Tree A

abbrev pub in_order : {A : Type 0} → Tree A → List A
in_order leaf = []
in_order (node l x r) = in_order l ++ x ∷ in_order r

-- What the code relies on of rbtree.c: `rb_insert_color` keeps the order of the nodes, and
-- `for (n = rb_first(root); n; n = rb_next(n))` visits them in that order.
pub record RbTree (A : Type 0) : Type 0 where
  pub insert_color : Tree A → Tree A
  pub nodes : Tree A → List A
  pub insert_color-in_order : (t : Tree A) → in_order (insert_color t) ≡ in_order t
  pub nodes-in_order : (t : Tree A) → nodes t ≡ in_order t

module _ {A K : Type 0} (key : A → K) (cmp : K → K → Ordering) where
  -- `while (node) { ret = cmp(k, this); if (ret < 0) left else if (ret > 0) right else return this }`
  unfoldable pub lookup : K → Tree A → Option A
  lookup k leaf = none
  lookup k (node l x r) = elim (cmp k (key x)) [
    | Ordering.lt ↦ lookup k l
    | Ordering.gt ↦ lookup k r
    | Ordering.eq ↦ some x
  ]

  -- The descent to the empty link, and `rb_link_node`; `none` where the key is there already.
  unfoldable pub link : A → Tree A → Option (Tree A)
  link a leaf = some (node leaf a leaf)
  link a (node l x r) = elim (cmp (key a) (key x)) [
    | Ordering.lt ↦ Option.map (λ l'. node l' x r) (link a l)
    | Ordering.gt ↦ Option.map (λ r'. node l x r') (link a r)
    | Ordering.eq ↦ none
  ]

  -- The tree afterwards, and whether the insertion returned 1.
  unfoldable pub insert : RbTree A → A → Tree A → Tree A × Bool
  insert rb a t = elim (link a t) [ none ↦ (t, false) | some t' ↦ (rb.insert_color t', true) ]

  -- A write through the pointer that `lookup` returns.
  unfoldable pub update : K → (A → A) → Tree A → Tree A
  update k f leaf = leaf
  update k f (node l x r) = elim (cmp k (key x)) [
    | Ordering.lt ↦ node (update k f l) x r
    | Ordering.gt ↦ node l x (update k f r)
    | Ordering.eq ↦ node l (f x) r
  ]
