-- ===== src/Links/Delete.antt =====
-- src/obj_link.c: the removal of a link.
use flower_route.Base.{
  ℕ, suc, ◌-◌, ◌≡◌, refl, ap, ◌∙◌, Bool, true, false, ◌&&◌, List, [], ◌∷◌, map, ◌==◌, ==_iff, ltb,
  if◌then◌else◌, length, arith,
}
use flower_route.Ret.{Ret, ok, ◌>>=◌}
use flower_route.Search.{Tree, RbTree, update}
use flower_route.Obj.{
  unknown, ObjMode, ObjKind, ObjCore, normal, present, zombie, kind_no, obj_weak_unref, obj_free,
  obj_is_reapable, is_zombie,
}
use flower_route.Links.{
  Link, Call, obj_neigh_link_gone, link_cmp, neighs_gone, obj_link_reap, obj_link_delete,
}

-- The link while its neighbours leave it.
record IsLeft (refcnt weak_refcnt : ℕ) (l : Link) : Type 0 where
  kind : kind_no l.obj.kind ≡ kind_no ObjKind.link
  gone : l.obj.state ≡ zombie
  refs : l.obj.refcnt ≡ refcnt
  weak_refs : l.obj.weak_refcnt ≡ weak_refcnt

and_false : (b : Bool) → (b && false) ≡ false
and_false true = refl
and_false false = refl

obj_weak_unref-suc :
    (c : ObjCore) (n : ℕ)
    → c.weak_refcnt ≡ suc n
    → (c' : ObjCore) × (obj_weak_unref c ≡ ok c')
      × (c'.kind ≡ c.kind)
      × (c'.state ≡ c.state)
      × (c'.refcnt ≡ c.refcnt)
      × (c'.weak_refcnt ≡ n)
unfolding obj_weak_unref
obj_weak_unref-suc c n e =
    let some_left : (c.weak_refcnt == 0) ≡ false = ground arith in
    let more : ltb 0 c.weak_refcnt ≡ true = ground arith in
    let no_zombie : (is_zombie c.state && (c.weak_refcnt == 0)) ≡ false =
      ap (λ b. is_zombie c.state && b) some_left ∙ and_false (is_zombie c.state) in
    (
      record c { weak_refcnt = c.weak_refcnt - 1 },
      rw (no_zombie, more),
      refl,
      refl,
      refl,
      omega arith,
    )

neighs_gone-IsLeft :
    (refcnt : ℕ) (ns : List ℕ) (l : Link)
    → IsLeft refcnt (length ns) l
    → (l' : Link) × (neighs_gone ns l ≡ ok (l', map obj_neigh_link_gone ns)) × IsLeft refcnt 0 l'
unfolding neighs_gone
neighs_gone-IsLeft refcnt [] l h = (l, refl, h)
neighs_gone-IsLeft refcnt (n ∷ ns) l h =
    let is_link : (kind_no l.obj.kind == kind_no ObjKind.link) ≡ true = (==_iff _ _).1 h.kind in
    let (core, unref, kind, gone, refs, weak) = obj_weak_unref-suc l.obj (length ns) h.weak_refs in
    let (l', steps, left) =
      neighs_gone-IsLeft refcnt ns (record l { obj = core; fdb = ns })
        (record {
          kind = ap kind_no kind ∙ h.kind;
          gone = gone ∙ h.gone;
          refs = refs ∙ h.refs;
          weak_refs = weak;
        }) in
    (l', rw is_link (rw unref (rw steps)), left)

-- An object that nobody refers to any more can be freed.
free_left : (l : Link) → IsLeft 0 0 l → (c : ObjCore) × (obj_free l.obj ≡ ok c)
unfolding obj_free
free_left l h =
    let known : (kind_no l.obj.kind == 0) ≡ false = ap (λ n. n == 0) h.kind in
    let zombie_left : is_zombie l.obj.state ≡ true = ap is_zombie h.gone in
    let no_refs : (l.obj.refcnt == 0) ≡ true = (==_iff _ _).1 h.refs in
    let no_weak : (l.obj.weak_refcnt == 0) ≡ true = (==_iff _ _).1 h.weak_refs in
    (record l.obj { kind = unknown }, rw known (rw zombie_left (rw no_refs (rw no_weak))))

reapable :
    (mode : ObjMode) (c : ObjCore)
    → (c.refcnt == 0) ≡ true
    → obj_is_reapable mode (record c { state = present }) ≡ true
unfolding obj_is_reapable
reapable normal c e = rw (e)
reapable ObjMode.teardown c e = rw (e)

reaped :
    (l l' : Link) (calls : List Call)
    → (l.obj.refcnt == 0) ≡ true
    → neighs_gone l.fdb (record l { obj = record l.obj { state = zombie } }) ≡ ok (l', calls)
    → IsLeft 0 0 l'
    → obj_link_reap l ≡ ok calls
unfolding obj_link_reap
reaped l l' calls no_refs steps left =
    let no_weak : (l'.obj.weak_refcnt == 0) ≡ true = (==_iff _ _).1 left.weak_refs in
    let (c, freed) = free_left l' left in rw no_refs (rw steps (rw no_weak (rw freed)))

module _ (rb : RbTree Link) (rb_erase : ℕ → Tree Link → Tree Link) (l : Link) (t : Tree Link) where
  -- The removal of a link that nobody holds, with one weak reference for each of its neighbours,
  -- returns without a failed assertion, in either mode: every neighbour is told that the link is
  -- gone, and the link is taken out of the table.
  pub obj_link_delete-erased :
      (mode : ObjMode)
      → kind_no l.obj.kind ≡ kind_no ObjKind.link
      → l.obj.refcnt ≡ 0
      → l.obj.weak_refcnt ≡ length l.fdb
      → obj_link_delete rb rb_erase mode l t
        ≡ ok (rb_erase l.ifindex t, map obj_neigh_link_gone l.fdb)
  unfolding obj_link_delete
  obj_link_delete-erased mode kind refs weak =
      let dying = record l { obj = record l.obj { state = zombie } } in
      let (l', steps, left) =
        neighs_gone-IsLeft 0 l.fdb dying
          (record { kind = kind; gone = refl; refs = refs; weak_refs = weak }) in
      let no_refs : (l.obj.refcnt == 0) ≡ true = (==_iff _ _).1 refs in
      let now = record l { obj = record l.obj { state = present } } in
      let done = reaped now l' (map obj_neigh_link_gone l.fdb) no_refs steps left in
      ap (λ b. if b then reaping (obj_link_reap now) else staying) (reapable mode l.obj no_refs)
      ∙ ap reaping done
    where
      reaping : Ret (List Call) → Ret (Tree Link × List Call)
      reaping m = do calls ← m; ok (rb_erase l.ifindex t, calls)

      staying : Ret (Tree Link × List Call)
      staying = ok (
        update (λ x. x.ifindex) link_cmp l.ifindex
            (λ x. record x { obj = record x.obj { state = present } }) t,
        [],
      )
