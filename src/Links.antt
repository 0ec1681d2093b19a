-- ===== src/Links.antt =====
-- src/obj_link.c: the table of links. The forwarding table of a link is the list of its neighbours'
-- addresses in memory, in the order of the tree; a function returns the calls that it makes into
-- src/obj_neigh.c. `obj_get_operating_mode()` is the argument `mode`.
pub mod Fields
pub mod Stored
pub mod Table
pub mod Delete
mod Tests
use flower_route.Base.{
  ℕ, zero, suc, ◌+◌, ◌≡◌, Bool, true, false, not, Ordering, Option, none, some, List, [], ◌∷◌, ◌++◌,
  map, ◌==◌, if_equal, ltb, if◌then◌else◌,
}
use flower_route.Base.Int.{sign}
use flower_route.Base.Chars.{str_equal}
use flower_route.Ret.{Ret, ok, aborted, assert, ◌>>=◌, ◌>>◌}
use flower_route.AfAddr.{replicate}
use flower_route.Keys.{ifindex_cmp, memcmp}
use flower_route.Search.{Tree, RbTree, in_order, lookup, insert, update}
use flower_route.Obj.{
  ObjMode, ObjState, ObjKind, ObjCore, present, installed, zombie, kind_no, obj_weak_unref,
  obj_free, obj_is_reapable,
}

-- `struct obj_link`.
pub record Link : Type 0 where
  pub obj : ObjCore
  pub ifindex : ℕ
  pub lower_ifindex : ℕ
  pub vlan_id : ℕ
  pub mtu : ℕ
  pub lladdr : List ℕ
  pub ifname : Option (List ℕ)
  pub fdb : List ℕ

-- What a message says of a link: the arguments of `obj_link_netlink_update` after `ifindex`.
pub record LinkInfo : Type 0 where
  pub lladdr : Option (List ℕ)
  pub lower_ifindex : ℕ
  pub vlan_id : ℕ
  pub mtu : ℕ
  pub ifname : Option (List ℕ)

pub data Call : Type 0 where
  obj_neigh_link_update obj_neigh_link_gone : ℕ → Call

-- The sum over the bytes that are not 0 yet.
unfoldable pub nonzero : List ℕ → ℕ
nonzero [] = 0
nonzero (b ∷ bs) = (if b == 0 then 0 else 1) + nonzero bs

-- The bytes afterwards, and the changes.
unfoldable pub lladdr_set : List ℕ → Option (List ℕ) → List ℕ × ℕ
unfolding nonzero memcmp
lladdr_set dst none = (replicate 6 0, nonzero dst)
lladdr_set dst (some src) = if_equal (memcmp dst src) (dst, 0) (src, 1)

unfoldable pub ifname_set : Option (List ℕ) → Option (List ℕ) → Option (List ℕ) × ℕ
ifname_set none none = (none, 0)
ifname_set (some dst) none = (none, 1)
ifname_set none (some src) = (some src, 1)
ifname_set (some dst) (some src) = if str_equal dst src then (some dst, 0) else (some src, 1)

-- `if (l->x != x) { l->x = x; changes++; }`: the change.
abbrev pub field_changes : ℕ → ℕ → ℕ
field_changes old new = if old == new then 0 else 1

-- The link with what the message says, and the changes.
unfoldable pub set_info : LinkInfo → Link → Link × ℕ
unfolding lladdr_set ifname_set
set_info i l =
    let (lladdr, c1) = lladdr_set l.lladdr i.lladdr in
    let (ifname, c2) = ifname_set l.ifname i.ifname in
    (
      record l {
        lladdr = lladdr;
        ifname = ifname;
        lower_ifindex = i.lower_ifindex;
        mtu = i.mtu;
        vlan_id = i.vlan_id;
      },
      c1
          + c2
          + field_changes l.lower_ifindex i.lower_ifindex
          + field_changes l.mtu i.mtu
          + field_changes l.vlan_id i.vlan_id,
    )

-- `fr_malloc`, the kind and the index.
abbrev pub new_link : ℕ → Link
new_link ifindex = record {
  obj = record { kind = ObjKind.link; refcnt = 0; weak_refcnt = 0; state = present };
  ifindex = ifindex;
  lower_ifindex = 0;
  vlan_id = 0;
  mtu = 0;
  lladdr = replicate 6 0;
  ifname = none;
  fdb = [];
}

abbrev pub link_cmp : ℕ → ℕ → Ordering
link_cmp a b = sign (ifindex_cmp a b)

unfoldable pub obj_link_lookup : ℕ → Tree Link → Option Link
obj_link_lookup = lookup (λ l. l.ifindex) link_cmp

unfoldable pub obj_link_insert : RbTree Link → Link → Tree Link → Tree Link × Bool
obj_link_insert rb l = insert (λ l. l.ifindex) link_cmp rb l

-- `obj_link_new`.
unfoldable pub obj_link_new : RbTree Link → Link → Tree Link → Tree Link
obj_link_new rb l t =
    (obj_link_insert rb (record l { obj = record l.obj { state = installed } }) t).0

-- `obj_link_update`: each neighbour of the link is told.
unfoldable pub obj_link_update : Link → List Call
obj_link_update l = map obj_neigh_link_update l.fdb

abbrev pub obj_assert_link : Link → Ret (Unit {0})
obj_assert_link l = assert (kind_no l.obj.kind == kind_no ObjKind.link)

-- The loop of `obj_link_reap`: `obj_neigh_link_gone` takes the neighbour out of the link and gives
-- its weak reference back.
unfoldable pub neighs_gone : List ℕ → Link → Ret (Link × List Call)
neighs_gone [] l = ok (l, [])
neighs_gone (n ∷ ns) l = do
  obj_assert_link l
  core ← obj_weak_unref l.obj
  (l', calls) ← neighs_gone ns (record l { obj = core; fdb = ns })
  ok (l', obj_neigh_link_gone n ∷ calls)

-- `obj_link_reap`: the calls; the link is freed.
unfoldable pub obj_link_reap : Link → Ret (List Call)
obj_link_reap l = do
  assert (l.obj.refcnt == 0)
  (l', calls) ← neighs_gone l.fdb (record l { obj = record l.obj { state = zombie } })
  assert (l'.obj.weak_refcnt == 0)
  _ ← obj_free l'.obj
  ok calls

module _ (rb : RbTree Link) (rb_erase : ℕ → Tree Link → Tree Link) (mode : ObjMode) where
  -- `obj_link_delete`; `rb_erase` takes the node of an index out of the tree.
  unfoldable pub obj_link_delete : Link → Tree Link → Ret (Tree Link × List Call)
  obj_link_delete l t =
      let l' = record l { obj = record l.obj { state = present } } in
      if obj_is_reapable mode l'.obj
      then (do calls ← obj_link_reap l'; ok (rb_erase l.ifindex t, calls))
      else ok (
        update (λ x. x.ifindex) link_cmp l.ifindex
            (λ x. record x { obj = record x.obj { state = present } }) t,
        [],
      )

  -- For a link that is in the tree: the writes through the pointer, and the calls where something
  -- has changed.
  unfoldable pub update_link : LinkInfo → Link → Tree Link → Tree Link × List Call
  update_link i l t =
      let (l', changes) = set_info i l in
      let calls = (if ltb 0 changes then obj_link_update l' else []) in
      (update (λ x. x.ifindex) link_cmp l.ifindex (λ x. (set_info i x).0) t, calls)

  abbrev pub rtm_dellink : ℕ
  rtm_dellink = 17

  unfoldable pub dispatch_link :
      (is_delete : Bool) → ℕ → LinkInfo → Option Link → Tree Link → Ret (Tree Link × List Call)
  dispatch_link true ifindex i none t = ok (t, [])
  dispatch_link true ifindex i (some l) t = do obj_assert_link l; obj_link_delete l t
  dispatch_link false ifindex i none t =
      ok (obj_link_new rb (set_info i (new_link ifindex)).0 t, [])
  dispatch_link false ifindex i (some l) t = do
    obj_assert_link l
    assert (l.ifindex == ifindex)
    ok (update_link i l t)

  unfoldable pub obj_link_netlink_update :
      (nlmsg_type ifindex : ℕ) → LinkInfo → Tree Link → Ret (Tree Link × List Call)
  obj_link_netlink_update nlmsg_type ifindex i t =
      dispatch_link (nlmsg_type == rtm_dellink) ifindex i (obj_link_lookup ifindex t) t
