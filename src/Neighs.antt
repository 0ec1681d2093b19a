-- ===== src/Neighs.antt =====
-- src/obj_neigh.c: the neighbours of a link, one table for each link. The link is its object, and
-- `rb_erase` and the rest of src/rbtree.c are parameters; `obj_get_operating_mode()` is the argument
-- `mode`, and `image` and `pin` are those of Rules. A function returns the table and the calls that it makes into src/obj_target.c and
-- src/obj_rule.c, in order.
pub mod Objects
pub mod Reap
pub mod Dying
pub mod Removed
pub mod Faults
pub mod Holds
pub mod Table
mod Tests
use flower_route.Base.{
  ℕ, ◌+◌, Bool, true, false, not, Ordering, Option, none, some, List, [], ◌∷◌, ◌++◌, map, ltb, ◌==◌,
  if◌then◌else◌,
}
use flower_route.Ret.{Ret, ok, aborted, assert, ◌>>=◌, ◌>>◌}
use flower_route.AfAddr.{AfAddr, af_addr_bytes, build_af_addr, replicate}
use flower_route.Keys.{memcmp}
use flower_route.Search.{Tree, leaf, RbTree, lookup, insert, update}
use flower_route.TcRule.{TcRule}
use flower_route.Obj.{
  ObjMode, ObjKind, ObjCore, present, installed, zombie, obj_ref, obj_weak_ref, obj_weak_unref,
  obj_free, obj_is_reapable,
}
use flower_route.Links.{lladdr_set}
use flower_route.Receive.{Pointer}
use Objects.{Neigh, Target, Counts, Call, obj_target_neigh_update, fresh_core}
use Reap.{obj_assert_is, count_down, unref_core, unref_targets}

-- A link as this file uses it: its object, `fdb`, and the counters of the objects.
pub record Fdb : Type 0 where
  pub link : ObjCore
  pub neighs : Tree Neigh
  pub counts : Counts

abbrev pub neigh_key : Neigh → List ℕ
neigh_key n = af_addr_bytes n.addr

unfoldable pub obj_neigh_fdb_lookup : AfAddr → Fdb → Ret (Option Neigh)
obj_neigh_fdb_lookup addr s = do
  obj_assert_is ObjKind.link s.link
  ok (lookup neigh_key memcmp (af_addr_bytes addr) s.neighs)

unfoldable pub obj_neigh_fdb_lookup2 : (af : ℕ) → Pointer → Fdb → Ret (Option Neigh)
unfolding obj_neigh_fdb_lookup
obj_neigh_fdb_lookup2 af addr s = do
  obj_assert_is ObjKind.link s.link
  bytes ← addr
  af_addr ← build_af_addr af bytes 0
  obj_neigh_fdb_lookup af_addr s

-- `obj_neigh_alloc`, with the address and a link.
abbrev pub obj_neigh_alloc : AfAddr → Neigh
obj_neigh_alloc addr = record {
  obj = fresh_core ObjKind.neigh;
  has_link = true;
  addr = addr;
  lladdr = replicate 6 0;
  targets = [];
}

abbrev pub count_neigh : Counts → Counts
count_neigh n = record n { neighs = n.neighs + 1 }

-- `obj_link_weak_unref`, `obj_link_weak_ref` and `obj_link_ref`.
unfoldable pub obj_link_weak_unref : ObjCore → Ret ObjCore
obj_link_weak_unref l = do obj_assert_is ObjKind.link l; obj_weak_unref l

unfoldable pub obj_link_weak_ref : ObjCore → Ret ObjCore
obj_link_weak_ref l = do obj_assert_is ObjKind.link l; ok (obj_weak_ref l)

unfoldable pub obj_link_ref : ObjCore → Ret ObjCore
obj_link_ref l = do obj_assert_is ObjKind.link l; ok (obj_ref l)

unfoldable pub obj_neigh_notify_targets : List Target → List Call
obj_neigh_notify_targets ts = map (λ t. obj_target_neigh_update t.ptr) ts

-- `obj_neigh_link_update`.
unfoldable pub obj_neigh_link_update : Neigh → Ret (List Call)
obj_neigh_link_update n = do
  obj_assert_is ObjKind.neigh n.obj
  ok (obj_neigh_notify_targets n.targets)

-- `obj_target_alloc`, at an address, with its next hop and the reference that the neighbour takes.
abbrev pub obj_target_alloc : (ptr : ℕ) → Target
obj_target_alloc ptr = record {
  ptr = ptr;
  obj = obj_ref (fresh_core ObjKind.target);
  routes = [];
  rule = none;
}

abbrev pub first_target : (ptr : ℕ) → Neigh → Counts → List Target → Neigh × Target × Counts
first_target ptr n counts (t ∷ ts) = (n, t, counts)
first_target ptr n counts [] =
    let t = obj_target_alloc ptr in
    (
      record n { obj = obj_weak_ref n.obj; targets = t ∷ [] },
      t,
      record counts { targets = counts.targets + 1 },
    )

-- The first target of the neighbour, or a new one in front.
unfoldable pub obj_target_get_unipath : (ptr : ℕ) → Neigh → Counts → Ret (Neigh × Target × Counts)
obj_target_get_unipath ptr n counts = do
  obj_assert_is ObjKind.neigh n.obj
  ok (first_target ptr n counts n.targets)

abbrev pub rtm_delneigh : ℕ
rtm_delneigh = 29

-- Everything but the address, which never changes.
abbrev pub rewritten : Neigh → Neigh → Neigh
rewritten n x = record n { addr = x.addr }

module _ (rb : RbTree Neigh) (rb_erase : List ℕ → Tree Neigh → Tree Neigh) (image : TcRule → List ℕ)
    (mode : ObjMode) (pin : ℕ) where
  -- A write to the neighbour, which is in the table where its link is set.
  abbrev pub put_neigh : Neigh → Fdb → Fdb
  put_neigh n s = record s { neighs = update neigh_key memcmp (neigh_key n) (rewritten n) s.neighs }

  unfoldable pub obj_neigh_fdb_insert : Neigh → Fdb → Ret Fdb
  obj_neigh_fdb_insert n s = do
    obj_assert_is ObjKind.neigh n.obj
    ok (record s { neighs = (insert neigh_key memcmp rb n s.neighs).0 })

  -- The table afterwards; the neighbour's `link` is NULL.
  unfoldable pub obj_neigh_unlink : Neigh → Fdb → Ret Fdb
  obj_neigh_unlink n s = do
    link ← obj_link_weak_unref s.link
    ok (record s { neighs = rb_erase (neigh_key n) s.neighs; link = link })

  -- The neighbour is freed.
  unfoldable pub obj_neigh_reap : Neigh → Fdb → Ret (Fdb × List Call)
  unfolding obj_neigh_unlink
  obj_neigh_reap n s = do
    obj_assert_is ObjKind.neigh n.obj
    assert (n.obj.refcnt == 0)
    (core, counts, calls) ←
        unref_targets image mode pin n.targets (record n.obj { state = zombie }) s.counts
    s' ← (if n.has_link then obj_neigh_unlink n s else ok s)
    _ ← obj_free core
    neighs ← count_down counts.neighs
    ok (record s' { counts = record counts { neighs = neighs } }, calls)

  -- `obj_neigh_unref` of a neighbour with a link.
  unfoldable pub obj_neigh_unref : Neigh → Fdb → Ret (Fdb × List Call)
  unfolding obj_neigh_reap
  obj_neigh_unref n s = do
    (core, due) ← unref_core mode ObjKind.neigh n.obj
    let n' = record n { obj = core }
    if due then obj_neigh_reap n' s else ok (put_neigh n' s, [])

  unfoldable pub obj_neigh_new : Neigh → Fdb → Ret (Fdb × List Call)
  unfolding obj_neigh_unref obj_neigh_fdb_insert
  obj_neigh_new n s = do
    obj_assert_is ObjKind.neigh n.obj
    let n' = record n { obj = record (obj_ref n.obj) { state = installed } }
    s' ← obj_neigh_fdb_insert n' s
    obj_neigh_unref n' s'

  unfoldable pub obj_neigh_update : Neigh → Fdb → Ret (Fdb × List Call)
  unfolding obj_neigh_unref
  obj_neigh_update n s = do
    obj_assert_is ObjKind.neigh n.obj
    let n' = record n { obj = record (obj_ref n.obj) { state = installed } }
    (s', calls) ← obj_neigh_unref n' s
    ok (s', obj_neigh_notify_targets n.targets ++ calls)

  -- A neighbour that stays is written back; one without a link is in no table.
  unfoldable pub obj_neigh_delete : Neigh → Fdb → Ret (Fdb × List Call)
  unfolding obj_neigh_reap
  obj_neigh_delete n s =
      let n' = record n { obj = record n.obj { state = present } } in
      if obj_is_reapable mode n'.obj
      then obj_neigh_reap n' s
      else ok (if n.has_link then put_neigh n' s else s, [])

  unfoldable pub obj_neigh_link_gone : Neigh → Fdb → Ret (Fdb × List Call)
  unfolding obj_neigh_unlink obj_neigh_delete
  obj_neigh_link_gone n s = do
    obj_assert_is ObjKind.neigh n.obj
    assert n.has_link
    s' ← obj_neigh_unlink n s
    obj_neigh_delete (record n { has_link = false }) s'

  abbrev pub delete_found : Option Neigh → Fdb → Ret (Fdb × List Call)
  delete_found none s = ok (s, [])
  delete_found (some n) s = obj_neigh_delete n s

  -- A new neighbour, or the changes of one that was there.
  unfoldable pub update_found :
      AfAddr → (lladdr : Option (List ℕ)) → Option Neigh → Fdb → Ret (Fdb × List Call)
  update_found addr lladdr none s = do
    link ← obj_link_weak_ref s.link
    let n = obj_neigh_alloc addr
    obj_neigh_new (record n { lladdr = (lladdr_set n.lladdr lladdr).0 })
        (record s { link = link; counts = count_neigh s.counts })
  update_found addr lladdr (some n) s =
      let (bytes, changes) = lladdr_set n.lladdr lladdr in
      let n' = record n { lladdr = bytes } in
      if ltb 0 changes then obj_neigh_update n' s else ok (put_neigh n' s, [])

  -- `obj_neigh_netlink_update` after the link has been found.
  unfoldable pub update_of_link :
      (nlmsg_type af : ℕ) → Pointer → (lladdr : Option (List ℕ)) → Fdb → Ret (Fdb × List Call)
  unfolding obj_neigh_fdb_lookup update_found
  update_of_link nlmsg_type af addr lladdr s = do
    bytes ← addr
    af_addr ← build_af_addr af bytes 0
    n ← obj_neigh_fdb_lookup af_addr s
    if nlmsg_type == rtm_delneigh then delete_found n s else update_found af_addr lladdr n s

  -- `l` is what `obj_link_lookup` finds.
  unfoldable pub obj_neigh_netlink_update :
      (nlmsg_type af : ℕ)
      → Pointer
      → (lladdr : Option (List ℕ)) → (l : Option Fdb) → Ret (Option Fdb × List Call)
  unfolding update_of_link
  obj_neigh_netlink_update nlmsg_type af addr lladdr none = ok (none, [])
  obj_neigh_netlink_update nlmsg_type af addr lladdr (some s) = do
    (s', calls) ← update_of_link nlmsg_type af addr lladdr s
    ok (some s', calls)

  -- A neighbour that is not there is made, with a reference on the link, and not put in.
  abbrev pub get_or_alloc : AfAddr → Option Neigh → Fdb → Ret (Neigh × Fdb)
  get_or_alloc addr (some n) s = ok (n, s)
  get_or_alloc addr none s = do
    link ← obj_link_ref s.link
    ok (obj_neigh_alloc addr, record s { link = link; counts = count_neigh s.counts })

  unfoldable pub obj_neigh_netlink_get :
      (af : ℕ) → Pointer → (l : Option Fdb) → Ret (Option (Neigh × Fdb))
  unfolding obj_neigh_fdb_lookup obj_link_ref
  obj_neigh_netlink_get af addr none = ok none
  obj_neigh_netlink_get af addr (some s) = do
    bytes ← addr
    af_addr ← build_af_addr af bytes 0
    n ← obj_neigh_fdb_lookup af_addr s
    r ← get_or_alloc af_addr n s
    ok (some r)
