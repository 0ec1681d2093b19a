-- ===== src/Receive/Tests.antt =====
-- The kernel's messages at concrete tables, over a concrete libmnl.
use flower_route.Base.{
  ℕ, ◌≡◌, refl, Bool, true, false, some, List, [], ◌∷◌, map, length, leb, ◌==◌, arith,
}
use flower_route.Ret.{ok}
use flower_route.TcRule.{TcRule}
use flower_route.AfAddr.{af_addr_bytes}
use flower_route.Keys.{memcmp}
use flower_route.Search.{Tree, leaf, node, RbTree, in_order, lookup}
use flower_route.Netlink.{Payload, octets, DataType, u8, u16, u32, each, Mnl, no_more}
use flower_route.Obj.{normal, ObjKind, installed}
use flower_route.Links
use flower_route.Links.{Link, new_link, obj_link_lookup}
use flower_route.Links.Table.{Noted}
use flower_route.Links.Fields.{IsLladdr}
use flower_route.Neighs.{Fdb, neigh_key}
use flower_route.Neighs.Objects.{Neigh, Call}
use flower_route.Neighs.Dying.{core}
use flower_route.Neighs.Holds.{IsLive}
use flower_route.Neighs.Table as NeighTable
use flower_route.Receive.{decode_route}
use flower_route.Receive.Vlan.{Vlan, vlan_message, vlan_said}
use flower_route.Receive.Dispatch.{ifinfomsg, Tables, link_call, decode_nlmsg_cb}
use flower_route.Receive.Handled.{decode_nlmsg_cb-vlan}
use flower_route.Receive.Hops.{
  route_message, route_attrs, one_hop, many_hops, asked, decode_route-same_hop,
}
use flower_route.Receive.Peers.{neigh_message, addr6, receive_neigh, neigh_message-Noted}
use mathlib.Core.Path.{subst}

-- The lengths that `mnl_attr_validate` checks.
abbrev has_length : ℕ → Payload → Bool
has_length n (octets bs) = length bs == n
has_length n _ = false

abbrev has_type : Payload → DataType → Bool
has_type p u8 = has_length 1 p
has_type p u16 = has_length 2 p
has_type p u32 = has_length 4 p
has_type p _ = true

abbrev plain_mnl : Mnl
plain_mnl = record {
  parse = λ cb list s. each cb list s;
  type_valid = leb;
  validate = has_type;
  parse_each = λ cb list s. refl;
  type_valid_le = λ type max h. ground arith;
  validate_u8 = λ bs h. ground arith;
  validate_u16 = λ bs h. ground arith;
  validate_u32 = λ bs h. ground arith;
  validate_text = λ s. refl;
  validate_nested = λ list. refl;
  validate_binary = λ p. refl;
}

-- A library that leaves the tree as it is linked, and walks it.
abbrev plain_rb : {A : Type 0} → RbTree A
plain_rb = record {
  insert_color = λ t. t;
  nodes = in_order;
  insert_color-in_order = λ t. refl;
  nodes-in_order = λ t. refl;
}

-- Takes nothing out: nothing is removed here.
abbrev keep_all : {A K : Type 0} → K → Tree A → Tree A
keep_all k t = t

-- The rules are not compared here.
abbrev image : TcRule → List ℕ
image r = []

-- VLAN 42 over interface 3.
abbrev v42 : Vlan
v42 = record {
  ifname = "v42";
  lladdr = 2 ∷ 0 ∷ 0 ∷ 0 ∷ 0 ∷ 1 ∷ [];
  mtu = 1500;
  lower = 3;
  vlan_id = 42;
}

-- Link 7 with two neighbours.
abbrev tables : Tables
tables = record {
  chains = leaf;
  links = node leaf (record (new_link 7) { fdb = 100 ∷ 200 ∷ [] }) leaf;
}

decode_nlmsg_cb-vlan_example :
    (t : Tree Link) × (calls : List Links.Call) × (decode_nlmsg_cb plain_mnl 3 254 plain_rb plain_rb
        keep_all normal
        (ifinfomsg (vlan_message 16 7 v42))
        tables
      ≡ ok (record tables { links = t }, map link_call calls))
    × Noted plain_rb keep_all normal 7
        (vlan_said v42)
        tables.links
        (obj_link_lookup 7 tables.links)
        t
        calls
decode_nlmsg_cb-vlan_example =
    decode_nlmsg_cb-vlan plain_mnl 254 plain_rb plain_rb keep_all normal 7 v42 tables
      (record {
        six = refl;
        mtu_bits = omega arith;
        lower_bits = omega arith;
        vlan_bits = omega arith;
      })
      (record {
        search = record { sorted = (tt, tt); fit = (tt, tt) };
        links = (record { kind = refl; lladdr = refl }, tt);
      })

-- 2001:db8::1
abbrev host : List ℕ
host = 32 ∷ 1 ∷ 13 ∷ 184 ∷ 0 ∷ 0 ∷ 0 ∷ 0 ∷ 0 ∷ 0 ∷ 0 ∷ 0 ∷ 0 ∷ 0 ∷ 0 ∷ 1 ∷ []

-- 2001:db8:1::
abbrev net : List ℕ
net = 32 ∷ 1 ∷ 13 ∷ 184 ∷ 0 ∷ 1 ∷ 0 ∷ 0 ∷ 0 ∷ 0 ∷ 0 ∷ 0 ∷ 0 ∷ 0 ∷ 0 ∷ 0 ∷ []

decode_route-same_hop_example :
    (decode_route plain_mnl 254
        (route_message 24 48 (route_attrs 254 net (many_hops 7 host no_more)))
      ≡ decode_route plain_mnl 254 (route_message 24 48 (route_attrs 254 net (one_hop 7 host))))
    × (decode_route plain_mnl 254 (route_message 24 48 (route_attrs 254 net (one_hop 7 host)))
        ≡ ok (some (asked 24 48 7 net host)))
decode_route-same_hop_example =
    decode_route-same_hop plain_mnl 24 48 254 7 net host (omega arith) (omega arith) refl refl
      no_more

abbrev neigh : Neigh
neigh = record {
  obj = core ObjKind.neigh 0 0 installed;
  has_link = true;
  addr = addr6 host;
  lladdr = 2 ∷ 0 ∷ 0 ∷ 0 ∷ 0 ∷ 7 ∷ [];
  targets = [];
}

abbrev fdb : Fdb
fdb = record {
  link = core ObjKind.link 0 1 installed;
  neighs = node leaf neigh leaf;
  counts = record { neighs = 1; targets = 0; routes = 0 };
}

found-IsLive :
    (n : Neigh)
    → lookup neigh_key memcmp (af_addr_bytes (addr6 host)) fdb.neighs ≡ some n
    → IsLive n.obj × IsLladdr n.lladdr
unfolding lookup memcmp
found-IsLive n e =
    let same : neigh ≡ n = cc in
    subst (λ x. IsLive x.obj × IsLladdr x.lladdr) same
      (record { kind = refl; alive = refl; refs = omega arith }, refl)

-- The neighbour has got another link layer address.
neigh_message-Noted_example :
    (s' : Fdb) × (calls : List Call) × (receive_neigh plain_mnl plain_rb keep_all image 3
        (neigh_message 28 7 host (2 ∷ 0 ∷ 0 ∷ 0 ∷ 0 ∷ 8 ∷ []))
        (λ i. some fdb)
      ≡ ok (some s', calls))
    × NeighTable.Noted
        (some (2 ∷ 0 ∷ 0 ∷ 0 ∷ 0 ∷ 8 ∷ []))
        (addr6 host)
        (lookup neigh_key memcmp (af_addr_bytes (addr6 host)) fdb.neighs)
        fdb
        s'
        calls
neigh_message-Noted_example =
    neigh_message-Noted plain_mnl plain_rb keep_all image 3 28 7 host (2 ∷ 0 ∷ 0 ∷ 0 ∷ 0 ∷ 8 ∷ [])
      refl refl (λ i. some fdb) fdb refl refl (record { sorted = (tt, tt); fit = (refl, tt) }) refl
      found-IsLive
