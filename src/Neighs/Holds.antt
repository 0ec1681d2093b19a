-- ===== src/Neighs/Holds.antt =====
-- src/obj_neigh.c: writes to the table of the neighbours of a link, and the references around them.
use mathlib.Core.Option
use flower_route.Base.{
  ℕ, ◌+◌, ◌-◌, ◌^◌, ◌<◌, ◌≡◌, refl, sym, ap, ◌∙◌, true, false, Ordering, none, some, List, length,
  if_equal, ◌==◌, arith,
}
use flower_route.Ret.{ok}
use flower_route.AfAddr.{AfAddr, af_addr_bytes}
use flower_route.Keys.{memcmp}
use flower_route.Keys.Orders.{memcmp-IsOrder}
use flower_route.Search.{Tree, RbTree, lookup, insert, update}
use flower_route.Search.Lookup.{IsSearch, lookup_key}
use flower_route.Search.Insert.{insert-IsSearch, lookup-insert}
use flower_route.Search.Update.{update-IsSearch, lookup-update}
use flower_route.Obj.{
  kind_no, normal, ObjKind, ObjCore, installed, is_zombie, obj_ref, obj_is_reapable,
}
use flower_route.Obj.Counts.{obj_ref_lem, obj_unref_lem}
use flower_route.Neighs.{neigh_key, rewritten}
use flower_route.Neighs.Objects.{Neigh}
use flower_route.Neighs.Reap.{unref_core}

-- The bytes of a `struct af_addr`.
abbrev pub IsKey : List ℕ → Type 0
IsKey k = length k ≡ 20

abbrev pub IsTable : Tree Neigh → Type 0
IsTable = IsSearch neigh_key memcmp IsKey

-- A neighbour in use, whose counter is not about to wrap.
pub record IsLive (c : ObjCore) : Type 0 where
  pub kind : c.kind ≡ ObjKind.neigh
  pub alive : is_zombie c.state ≡ false
  pub refs : c.refcnt + 1 < 2 ^ 32

-- In normal mode an installed object outlives its last reference.
installed_stays : (c : ObjCore) → obj_is_reapable normal (record c { state = installed }) ≡ false
unfolding obj_is_reapable
installed_stays c = ground arith

pub kind_test : (c : ObjCore) → IsLive c → (kind_no c.kind == kind_no ObjKind.neigh) ≡ true
kind_test c h = ap (λ k. kind_no k == kind_no ObjKind.neigh) h.kind

-- The bracket of `obj_neigh_ref` and `obj_neigh_unref` around the change of state.
pub bracket :
    (c : ObjCore)
    → IsLive c
    → unref_core normal ObjKind.neigh (record (obj_ref c) { state = installed })
      ≡ ok (record c { state = installed }, false)
unfolding unref_core
bracket c h =
    let back : c.refcnt + 1 - 1 ≡ c.refcnt = omega arith in
    let given =
      obj_unref_lem (record c { refcnt = c.refcnt + 1; state = installed }) refl (omega arith) in
    rw (obj_ref_lem c h.alive h.refs, kind_test c h, given, back)
      (ap (λ b. ok (record c { state = installed }, b)) (installed_stays c))

-- What is found in the table `t'`, if `n` has been written to `t`.
abbrev pub Holds : Neigh → Tree Neigh → Tree Neigh → Type 0
Holds n t t' =
    IsTable t'
    × ((k : List ℕ)
        → IsKey k
        → lookup neigh_key memcmp k t'
          ≡ if_equal (memcmp k (neigh_key n)) (some n) (lookup neigh_key memcmp k t))

pub af_addr_eq : (a b : AfAddr) → af_addr_bytes a ≡ af_addr_bytes b → a ≡ b
af_addr_eq a b e = ground arith

-- A write through the pointer to a neighbour of the table.
pub put-Holds :
    (n old : Neigh) (t : Tree Neigh)
    → IsTable t
    → IsKey (neigh_key n)
    → lookup neigh_key memcmp (neigh_key n) t ≡ some old
    → Holds n t (update neigh_key memcmp (neigh_key n) (rewritten n) t)
put-Holds n old t h fits e =
    let at : neigh_key old ≡ neigh_key n =
      lookup_key neigh_key (memcmp-IsOrder 20) (neigh_key n) t old fits h e in
    let same : rewritten n old ≡ n =
      ap (λ a. record n { addr = a }) (af_addr_eq old.addr n.addr at) in
    (
      update-IsSearch neigh_key (memcmp-IsOrder 20) (neigh_key n) (rewritten n) fits (λ x. refl) t
          h,
      λ k fk.
          lookup-update neigh_key (memcmp-IsOrder 20) (neigh_key n) (rewritten n) fits (λ x. refl) k
            t fk h
          ∙ ap
              (λ m.
                if_equal (memcmp k (neigh_key n)) (Option.map (rewritten n) m)
                  (lookup neigh_key memcmp k t))
              e
          ∙ ap (λ x. if_equal (memcmp k (neigh_key n)) (some x) (lookup neigh_key memcmp k t)) same,
    )

if_equal_twice :
    {A : Type 0} (c : Ordering) (x y z : A) → if_equal c x (if_equal c y z) ≡ if_equal c x z
if_equal_twice Ordering.lt x y z = refl
if_equal_twice Ordering.eq x y z = refl
if_equal_twice Ordering.gt x y z = refl

-- The insertion of a neighbour, and a write to it.
pub insert-put-Holds :
    (rb : RbTree Neigh) (n n' : Neigh) (t : Tree Neigh)
    → IsTable t
    → IsKey (neigh_key n)
    → n'.addr ≡ n.addr
    → lookup neigh_key memcmp (neigh_key n) t ≡ none
    → Holds n' t
        (update neigh_key memcmp (neigh_key n') (rewritten n') (insert neigh_key memcmp rb n t).0)
insert-put-Holds rb n n' t h fits a e =
    let key : neigh_key n' ≡ neigh_key n = ap af_addr_bytes a in
    let t1 = (insert neigh_key memcmp rb n t).0 in
    let h1 = insert-IsSearch neigh_key (memcmp-IsOrder 20) n fits rb t h in
    let found = lookup-insert neigh_key (memcmp-IsOrder 20) n fits rb t h in
    let self : memcmp (neigh_key n') (neigh_key n) ≡ Ordering.eq =
      ap (λ k. memcmp k (neigh_key n)) key ∙ (memcmp-IsOrder 20).self (neigh_key n) fits in
    let there : lookup neigh_key memcmp (neigh_key n') t1 ≡ some n =
      found (neigh_key n') (ap length key ∙ fits) e
      ∙ ap (λ c. if_equal c (some n) (lookup neigh_key memcmp (neigh_key n') t)) self in
    let (search, written) = put-Holds n' n t1 h1 (ap length key ∙ fits) there in
    (
      search,
      λ k fk.
          written k fk
          ∙ ap (λ m. if_equal (memcmp k (neigh_key n')) (some n') m)
              (found k fk e
                ∙ ap (λ q. if_equal (memcmp k q) (some n) (lookup neigh_key memcmp k t)) (sym key))
          ∙ if_equal_twice (memcmp k (neigh_key n')) (some n') (some n)
              (lookup neigh_key memcmp k t),
    )
