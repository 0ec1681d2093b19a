-- ===== src/Receive/Handled.antt =====
-- The messages of the kernel from `decode_nlmsg_cb` of src/nl_decode.c to the tables.
use flower_route.Base.{ℕ, ◌≡◌, refl, List, map}
use flower_route.Ret.{ok}
use flower_route.Netlink.{Mnl}
use flower_route.Search.{Tree, RbTree}
use flower_route.Obj.{ObjMode}
use flower_route.Chains.{Chain}
use flower_route.Links
use flower_route.Links.{Link, obj_link_lookup}
use flower_route.Links.Stored.{IsTable}
use flower_route.Links.Table.{Noted, obj_link_netlink_update-Noted}
use flower_route.Receive.Vlan.{Vlan, InRange, vlan_message, vlan_said, decode_link-vlan_message}
use flower_route.Receive.Dispatch.{ifinfomsg, Tables, link_call, decode_nlmsg_cb}
use flower_route.Receive.Names

module _ (m : Mnl) (table_id : ℕ) (chain_rb : RbTree Chain) (link_rb : RbTree Link)
    (link_erase : ℕ → Tree Link → Tree Link) (mode : ObjMode) where
  -- For a table of links in order and a VLAN on the daemon's interface with its fields in range: the
  -- kernel's message of it is handled without an error. Afterwards the table is in order, the link
  -- of the index says what the message says, every other index finds what it found, the table of
  -- chains is as before, and the neighbours of the link are told if and only if there was such a
  -- link and it said something else.
  pub decode_nlmsg_cb-vlan :
      (ifindex : ℕ) (v : Vlan) (s : Tables)
      → InRange v
      → IsTable s.links
      → (t : Tree Link) × (calls : List Links.Call) × (decode_nlmsg_cb m v.lower table_id chain_rb
            link_rb link_erase mode
            (ifinfomsg (vlan_message Names.rtm_newlink ifindex v))
            s
          ≡ ok (record s { links = t }, map link_call calls))
        × Noted link_rb link_erase mode ifindex
            (vlan_said v)
            s.links
            (obj_link_lookup ifindex s.links)
            t
            calls
  unfolding decode_nlmsg_cb
  decode_nlmsg_cb-vlan ifindex v s r h =
      let (t, calls, step, noted) =
        obj_link_netlink_update-Noted link_rb link_erase mode ifindex (vlan_said v) s.links
          Names.rtm_newlink refl h r.six in
      (t, calls, rw (decode_link-vlan_message m Names.rtm_newlink ifindex v r, step) refl, noted)
