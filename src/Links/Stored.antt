-- ===== src/Links/Stored.antt =====
-- src/obj_link.c: what holds of every link of the table.
use mathlib.Core.Path.{subst}
use flower_route.Base.{
  ℕ, ◌≡◌, sym, ◌∙◌, Ordering-cases, some, List, [], ◌∷◌, inl, inr, All, All-append, All-append_left,
  All-append_right,
}
use flower_route.Keys.Orders.{ifindex_cmp-IsOrder}
use flower_route.Search.{Tree, leaf, node, in_order, update}
use flower_route.Search.Lists.{find, place}
use flower_route.Search.Lookup.{IsSearch, lookup-find}
use flower_route.Obj.{ObjKind, kind_no}
use flower_route.Links.{Link, link_cmp, obj_link_lookup}
use flower_route.Links.Fields.{IsLladdr}

abbrev pub index : Link → ℕ
index l = l.ifindex

-- A link object as the module keeps it.
pub record IsLink (l : Link) : Type 0 where
  pub kind : kind_no l.obj.kind ≡ kind_no ObjKind.link
  pub lladdr : IsLladdr l.lladdr

abbrev pub AnyIndex : ℕ → Type 0
AnyIndex n = Unit

pub record IsTable (t : Tree Link) : Type 0 where
  pub search : IsSearch (λ l. l.ifindex) link_cmp AnyIndex t
  pub links : All IsLink (in_order t)

find-some :
    (k : ℕ) (ls : List Link) (l : Link)
    → All IsLink ls
    → find index link_cmp k ls ≡ some l
    → IsLink l × (k ≡ l.ifindex)
unfolding find
find-some k [] l h e = cc
find-some k (x ∷ ls) l h e = elim (Ordering-cases (link_cmp k x.ifindex)) [
  | inl d ↦ find-some k ls l h.1 (rw (find, d) at e)
  | inr (inl d) ↦
      let found : some x ≡ some l = rw (find, d) at e in
      let same : x ≡ l = cc in
      subst (λ y. IsLink y × (k ≡ y.ifindex)) same
        (h.0, ifindex_cmp-IsOrder.eq_of k x.ifindex tt tt d)
  | inr (inr d) ↦ find-some k ls l h.1 (rw (find, d) at e)
]

pub place-All :
    (P : Link → Type 0) (a : Link) (ls : List Link)
    → P a
    → All P ls
    → All P (place index link_cmp a ls)
unfolding place
place-All P a [] pa h = (pa, tt)
place-All P a (x ∷ ls) pa h = elim (Ordering-cases (link_cmp a.ifindex x.ifindex)) [
  | inl d ↦ rw (place, d) (pa, h)
  | inr (inl d) ↦ rw (place, d) (h.0, place-All P a ls pa h.1)
  | inr (inr d) ↦ rw (place, d) (h.0, place-All P a ls pa h.1)
]

pub update-All :
    (P : Link → Type 0) (k : ℕ) (f : Link → Link) (t : Tree Link)
    → ((x : Link) → P x → P (f x))
    → All P (in_order t)
    → All P (in_order (update index link_cmp k f t))
unfolding update
update-All P k f leaf pf h = tt
update-All P k f (node l x r) pf h =
    let hl = All-append_left P (in_order l) (x ∷ in_order r) h in
    let hr = All-append_right P (in_order l) (x ∷ in_order r) h in
    elim (Ordering-cases (link_cmp k x.ifindex)) [
      | inl d ↦ rw (update, d) (All-append P _ _ (update-All P k f l pf hl) hr)
      | inr (inl d) ↦ rw (update, d) (All-append P _ _ hl (pf x hr.0, hr.1))
      | inr (inr d) ↦ rw (update, d) (All-append P _ _ hl (hr.0, update-All P k f r pf hr.1))
    ]

-- The link at an index, as the search finds it.
pub found_link :
    (ifindex : ℕ) (t : Tree Link) (l : Link)
    → IsTable t
    → obj_link_lookup ifindex t ≡ some l
    → IsLink l × (ifindex ≡ l.ifindex)
unfolding obj_link_lookup
found_link ifindex t l h e =
    find-some ifindex (in_order t) l h.links
      (sym (lookup-find index ifindex_cmp-IsOrder ifindex t tt h.search) ∙ e)
