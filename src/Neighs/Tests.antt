-- ===== src/Neighs/Tests.antt =====
-- The neighbours of a link at concrete objects.
use flower_route.Base.{ℕ, ◌≡◌, refl, true, false, none, List, [], ◌∷◌, inl, arith}
use flower_route.Ret.{ok}
use flower_route.TcRule.{TcRule}
use flower_route.AfAddr.{AfAddr}
use flower_route.Search.{lookup, Tree, leaf, node, RbTree, in_order}
use flower_route.Obj.{is_zombie, ObjKind, ObjState, normal, present, installed}
use flower_route.Neighs.{Fdb, neigh_key, obj_neigh_delete}
use flower_route.Neighs.Objects.{Route, Target, Neigh, Call}
use flower_route.Search.Erase.{plain_erase, plain_erase-Erases}
use flower_route.Keys.{memcmp}
use flower_route.Keys.Orders.{memcmp-IsOrder}
use flower_route.Neighs.Holds.{IsTable}
use flower_route.Neighs.Dying.{core}
use flower_route.Neighs.Removed.{IsKept, Gone, all_calls, obj_neigh_delete-Gone}
use flower_route.Neighs.Faults.{obj_neigh_delete-never_ok}

-- A library that leaves the tree as it is linked, and walks it.
abbrev plain_rb : RbTree Neigh
plain_rb = record {
  insert_color = λ t. t;
  nodes = in_order;
  insert_color-in_order = λ t. refl;
  nodes-in_order = λ t. refl;
}

abbrev only_one : List ℕ → Tree Neigh → Tree Neigh
only_one key t = leaf

-- The rules are not compared here.
abbrev image : TcRule → List ℕ
image r = []

-- 192.0.2.1
abbrev address : AfAddr
address = record {
  af = 2;
  mask_len = 0;
  addr = 192 ∷ 0 ∷ 2 ∷ 1 ∷ 0 ∷ 0 ∷ 0 ∷ 0 ∷ 0 ∷ 0 ∷ 0 ∷ 0 ∷ 0 ∷ 0 ∷ 0 ∷ 0 ∷ [];
}

abbrev route : ObjState → Route
route st = record { ptr = 300; obj = core ObjKind.route 1 0 st; rule = none; target_rule = none }

abbrev target : ObjState → Target
target st = record {
  ptr = 200;
  obj = core ObjKind.target 1 1 present;
  routes = route st ∷ [];
  rule = none;
}

-- A neighbour with one target and one route over it.
abbrev neigh : ObjState → Neigh
neigh st = record {
  obj = core ObjKind.neigh 0 1 installed;
  has_link = true;
  addr = address;
  lladdr = 2 ∷ 0 ∷ 0 ∷ 0 ∷ 0 ∷ 7 ∷ [];
  targets = target st ∷ [];
}

abbrev fdb : ObjState → Fdb
fdb st = record {
  link = core ObjKind.link 0 1 installed;
  neighs = node leaf (neigh st) leaf;
  counts = record { neighs = 1; targets = 1; routes = 1 };
}

kept : (st : ObjState) → is_zombie st ≡ false → IsKept normal (neigh st) (fdb st)
kept st h = record {
  state = installed;
  obj = refl;
  linked = refl;
  targets = (
    record {
      obj = refl;
      routes = (record { state = st; alive = h; obj = refl; bare = λ e. refl }, tt);
    },
    tt,
  );
  link_refs = 0;
  link_weak = 0;
  link_state = installed;
  link = refl;
  neigh_cnt = omega arith;
  target_cnt = omega arith;
  route_cnt = omega arith;
}

abbrev erase : List ℕ → Tree Neigh → Tree Neigh
erase = plain_erase neigh_key (memcmp-IsOrder 20)

fdb-IsTable : IsTable (fdb present).neighs
fdb-IsTable = record { sorted = (tt, tt); fit = (refl, tt) }

obj_neigh_delete-Gone_example :
    (s' : Fdb) × (obj_neigh_delete plain_rb erase image normal 3 (neigh present) (fdb present)
      ≡ ok (s', all_calls normal (neigh present).targets))
    × Gone (kept present refl) s'
unfolding memcmp lookup
obj_neigh_delete-Gone_example =
    obj_neigh_delete-Gone plain_rb erase image normal 3 (neigh present) (fdb present)
      (kept present refl) (plain_erase-Erases neigh_key (memcmp-IsOrder 20)) fdb-IsTable refl refl
      ((refl, refl), tt)

obj_neigh_delete-never_ok_example : ¬ (
    (x : Fdb × List Call) × (obj_neigh_delete plain_rb only_one image normal 3
        (neigh installed)
        (fdb installed)
      ≡ ok x))
obj_neigh_delete-never_ok_example =
    obj_neigh_delete-never_ok plain_rb only_one image normal 3 (neigh installed) (fdb installed)
      (kept installed refl) (inl (omega arith))
