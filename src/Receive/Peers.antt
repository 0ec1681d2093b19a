-- ===== src/Receive/Peers.antt =====
-- The kernel's message of an IPv6 neighbour, from src/nl_decode.c to the table of src/obj_neigh.c.
use flower_route.Base.{ℕ, ◌≡◌, refl, ap, false, some, Option, List, length, ◌==◌, arith}
use flower_route.Ret.{Ret, ok, ◌>>=◌}
use flower_route.TcRule.{TcRule}
use flower_route.AfAddr.{AfAddr, af_inet6, af_addr_bytes, build_af_addr, take-length}
use flower_route.Netlink.{octets, Attrs, put, ◌&◌, Mnl}
use flower_route.Netlink.Table.{parse_table-fill}
use flower_route.Search.{Tree, RbTree, lookup}
use flower_route.Keys.{memcmp}
use flower_route.Obj.{ObjKind, normal}
use flower_route.Links.Fields.{IsLladdr}
use flower_route.Receive.{NeighMessage, neigh_attr_types, decode_neigh}
use flower_route.Receive.Hops.{bytes_at_least-length}
use flower_route.Receive.Names
use flower_route.Neighs.{Fdb, neigh_key, rtm_delneigh, obj_neigh_netlink_update}
use flower_route.Neighs.Objects.{Neigh, Call}
use flower_route.Neighs.Holds.{IsTable, IsLive}
use flower_route.Neighs.Table.{Noted, obj_neigh_netlink_update-Noted}

abbrev pub neigh_attrs : (dst lladdr : List ℕ) → Attrs
neigh_attrs dst lladdr = put Names.nda_dst (octets dst) & put Names.nda_lladdr (octets lladdr)

abbrev pub neigh_message : (nlmsg_type ifindex : ℕ) (dst lladdr : List ℕ) → NeighMessage
neigh_message nlmsg_type ifindex dst lladdr = record {
  nlmsg_type = nlmsg_type;
  ndm_ifindex = ifindex;
  ndm_family = af_inet6;
  attrs = neigh_attrs dst lladdr;
}

-- The address in the table.
abbrev pub addr6 : List ℕ → AfAddr
addr6 dst = record { af = af_inet6; mask_len = 0; addr = dst }

build_addr6 :
    (dst : List ℕ) → length dst ≡ 16 → build_af_addr af_inet6 (some dst) 0 ≡ ok (addr6 dst)
unfolding build_af_addr
build_addr6 dst h = ap (λ bs. ok (addr6 bs)) (take-length 16 dst h)

module _ (m : Mnl) (rb : RbTree Neigh) (rb_erase : List ℕ → Tree Neigh → Tree Neigh)
    (image : TcRule → List ℕ) (pin : ℕ) where
  -- `decode_neigh` with the call that it makes, for what `obj_link_lookup` finds at an index.
  abbrev pub receive_neigh :
      NeighMessage → (link_of : ℕ → Option Fdb) → Ret (Option Fdb × List Call)
  receive_neigh nlh link_of = do
    u ← decode_neigh m nlh
    obj_neigh_netlink_update rb rb_erase image normal pin u.nlmsg_type u.af u.addr u.lladdr
        (link_of u.ifindex)

  module _ (nlmsg_type ifindex : ℕ) (dst lladdr : List ℕ) (dst_lem : length dst ≡ 16)
      (six : IsLladdr lladdr) where
    decode_neigh_lem :
        decode_neigh m (neigh_message nlmsg_type ifindex dst lladdr)
        ≡ ok (record {
          nlmsg_type = nlmsg_type;
          ifindex = ifindex;
          af = af_inet6;
          addr = ok (some dst);
          lladdr = some lladdr;
        })
    unfolding decode_neigh
    decode_neigh_lem =
        rw
          (
            parse_table-fill m Names.nda_max neigh_attr_types (neigh_attrs dst lladdr) (
              (omega arith, refl, m.validate_binary _),
              ((omega arith, refl, m.validate_binary _), tt),
            ),
            bytes_at_least-length 6 lladdr six,
            bytes_at_least-length 16 dst dst_lem,
          )
          refl

    -- In normal mode, for a message that is no removal of an IPv6 neighbour on a link that is known,
    -- over a table in order with live neighbours: it is handled without an error, the table is in
    -- order again, the neighbour of the address has the link layer address of the message, and every
    -- other address finds what it found. A neighbour that was there keeps its targets, which are
    -- notified exactly if its link layer address was another one; a new one has none, takes a weak
    -- reference on the link, and is counted.
    pub neigh_message-Noted :
        (link_of : ℕ → Option Fdb) (s : Fdb)
        → link_of ifindex ≡ some s
        → (nlmsg_type == rtm_delneigh) ≡ false
        → IsTable s.neighs
        → s.link.kind ≡ ObjKind.link
        → ((n : Neigh)
            → lookup neigh_key memcmp (af_addr_bytes (addr6 dst)) s.neighs ≡ some n
            → IsLive n.obj × IsLladdr n.lladdr)
        → (s' : Fdb) × (calls : List Call) × (receive_neigh
              (neigh_message nlmsg_type ifindex dst lladdr)
              link_of
            ≡ ok (some s', calls))
          × Noted
              (some lladdr)
              (addr6 dst)
              (lookup neigh_key memcmp (af_addr_bytes (addr6 dst)) s.neighs)
              s
              s'
              calls
    neigh_message-Noted link_of s known d table link live =
        let (s', calls, step, noted) =
          obj_neigh_netlink_update-Noted rb rb_erase image pin (addr6 dst) (some lladdr) s table
            (omega arith) six nlmsg_type af_inet6 (some dst) d (build_addr6 dst dst_lem) link
            live in
        (s', calls, rw (decode_neigh_lem, known, step) refl, noted)
