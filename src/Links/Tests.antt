-- ===== src/Links/Tests.antt =====
-- The table of links at a concrete message.
use flower_route.Base.{ℕ, ◌≡◌, refl, some, List, [], ◌∷◌}
use flower_route.Ret.{ok}
use flower_route.Search.{Tree, leaf, node, RbTree, in_order}
use flower_route.Obj.{normal}
use flower_route.Links.{Link, LinkInfo, Call, new_link, obj_link_lookup, obj_link_netlink_update}
use flower_route.Links.Table.{Noted, obj_link_netlink_update-Noted}

abbrev plain_rb : {A : Type 0} → RbTree A
plain_rb = record {
  insert_color = λ t. t;
  nodes = in_order;
  insert_color-in_order = λ t. refl;
  nodes-in_order = λ t. refl;
}

-- Takes nothing out: no link is removed here.
abbrev keep_all : ℕ → Tree Link → Tree Link
keep_all n t = t

-- Link 7 with two neighbours.
abbrev seven : Link
seven = record (new_link 7) { mtu = 1500; fdb = 100 ∷ 200 ∷ [] }

abbrev links : Tree Link
links = node leaf seven leaf

abbrev message : LinkInfo
message = record {
  lladdr = some (2 ∷ 0 ∷ 0 ∷ 0 ∷ 0 ∷ 1 ∷ []);
  lower_ifindex = 3;
  vlan_id = 42;
  mtu = 1500;
  ifname = some (118 ∷ 52 ∷ 50 ∷ []);
}

obj_link_netlink_update-Noted_example :
    (t' : Tree Link) × (calls : List Call) × (obj_link_netlink_update plain_rb keep_all normal 16 7
        message links
      ≡ ok (t', calls))
    × Noted plain_rb keep_all normal 7 message links (obj_link_lookup 7 links) t' calls
obj_link_netlink_update-Noted_example =
    obj_link_netlink_update-Noted plain_rb keep_all normal 7 message links 16 refl
      (record {
        search = record { sorted = (tt, tt); fit = (tt, tt) };
        links = (record { kind = refl; lladdr = refl }, tt);
      })
      refl
