-- ===== src/Receive/Hops.antt =====
-- The kernel's messages of neighbours and of routes, and what src/nl_decode.c makes of them.
use flower_route.Base.{
  sym, ℕ, ◌^◌, ◌<◌, ◌≡◌, refl, ◌∙◌, true, some, List, length, leb, ==_refl, arith,
}
use flower_route.Base.Bytes.{bytes32, load32-bytes32}
use flower_route.Ret.{ok}
use flower_route.AfAddr.{af_inet6, take-length}
use flower_route.Netlink.{octets, nexthops, Nexthops, nexthop, Attrs, put, ◌&◌, Mnl}
use flower_route.Netlink.Table.{parse_table-fill}
use flower_route.Receive.{
  RouteMessage, RouteUpdate, route6_attr_types, decode_route, bytes_at_least,
}
use flower_route.Receive.Names

-- A payload of the right length is read whole.
pub bytes_at_least-length :
    (n : ℕ) (bs : List ℕ) → length bs ≡ n → bytes_at_least n (octets bs) ≡ ok bs
bytes_at_least-length n bs h =
    let long : leb n (length bs) ≡ true = ground arith in rw (long, take-length n bs h) refl

-- The attributes of an IPv6 route, up to its next hops.
abbrev pub route_attrs : (table_id : ℕ) (dst : List ℕ) → Attrs → Attrs
route_attrs table_id dst hop =
    put Names.rta_table (octets (bytes32 table_id)) & put Names.rta_dst (octets dst) & hop

abbrev pub one_hop : (oif : ℕ) (gateway : List ℕ) → Attrs
one_hop oif gateway =
    put Names.rta_gateway (octets gateway) & put Names.rta_oif (octets (bytes32 oif))

abbrev pub many_hops : (oif : ℕ) (gateway : List ℕ) → Nexthops → Attrs
many_hops oif gateway rest =
    put Names.rta_multipath (nexthops (nexthop oif (put Names.rta_gateway (octets gateway)) rest))

abbrev pub route_message : (nlmsg_type dst_len : ℕ) → Attrs → RouteMessage
route_message nlmsg_type dst_len attrs = record {
  nlmsg_type = nlmsg_type;
  rtm_family = af_inet6;
  rtm_dst_len = dst_len;
  attrs = attrs;
}

-- What a route of one next hop asks for.
abbrev pub asked : (nlmsg_type dst_len oif : ℕ) (dst gateway : List ℕ) → RouteUpdate
asked nlmsg_type dst_len oif dst gateway = record {
  nlmsg_type = nlmsg_type;
  af = af_inet6;
  hop = record { oif = oif; gateway = ok (some gateway) };
  dst = ok (some dst);
  dst_len = dst_len;
}

module _ (m : Mnl) (nlmsg_type dst_len table_id oif : ℕ) (dst gateway : List ℕ)
    (table_bits : table_id < 2 ^ 32) (oif_bits : oif < 2 ^ 32) (dst_lem : length dst ≡ 16)
    (gateway_lem : length gateway ≡ 16) where
  decode_route-one_hop :
      decode_route m table_id
        (route_message nlmsg_type dst_len (route_attrs table_id dst (one_hop oif gateway)))
      ≡ ok (some (asked nlmsg_type dst_len oif dst gateway))
  unfolding decode_route
  decode_route-one_hop =
      rw
        (
          parse_table-fill m Names.rtax_max route6_attr_types
              (route_attrs table_id dst (one_hop oif gateway))
              (
                (omega arith, refl, m.validate_u32 _ refl),
                (
                  (omega arith, refl, m.validate_binary _),
                  (
                    (omega arith, refl, m.validate_binary _),
                    ((omega arith, refl, m.validate_u32 _ refl), tt),
                  ),
                ),
              ),
          load32-bytes32 table_id table_bits,
          load32-bytes32 oif oif_bits,
          ==_refl table_id,
          bytes_at_least-length 16 gateway gateway_lem,
          bytes_at_least-length 16 dst dst_lem,
        )
        refl

  decode_route-many_hops :
      (rest : Nexthops)
      → decode_route m table_id
          (route_message nlmsg_type dst_len (route_attrs table_id dst (many_hops oif gateway rest)))
        ≡ ok (some (asked nlmsg_type dst_len oif dst gateway))
  unfolding decode_route
  decode_route-many_hops rest =
      rw
        (
          parse_table-fill m Names.rtax_max route6_attr_types
              (route_attrs table_id dst (many_hops oif gateway rest))
              (
                (omega arith, refl, m.validate_u32 _ refl),
                (
                  (omega arith, refl, m.validate_binary _),
                  ((omega arith, refl, m.validate_binary _), tt),
                ),
              ),
          parse_table-fill m Names.rtax_max route6_attr_types
              (put Names.rta_gateway (octets gateway))
              ((omega arith, refl, m.validate_binary _), tt),
          load32-bytes32 table_id table_bits,
          ==_refl table_id,
          bytes_at_least-length 16 gateway gateway_lem,
          bytes_at_least-length 16 dst dst_lem,
        )
        refl

  -- An IPv6 route of the daemon's table, with its destination: the kernel's message of one next hop,
  -- and that of several whose first is the same, ask for the same, whatever the other next hops are:
  -- the neighbour of the gateway on the link of that next hop, and the destination.
  pub decode_route-same_hop :
      (rest : Nexthops)
      → (decode_route m table_id (
            route_message nlmsg_type dst_len
              (route_attrs table_id dst (many_hops oif gateway rest)))
          ≡ decode_route m table_id
              (route_message nlmsg_type dst_len (route_attrs table_id dst (one_hop oif gateway))))
        × (decode_route m table_id
              (route_message nlmsg_type dst_len (route_attrs table_id dst (one_hop oif gateway)))
            ≡ ok (some (asked nlmsg_type dst_len oif dst gateway)))
  decode_route-same_hop rest =
      (decode_route-many_hops rest ∙ sym decode_route-one_hop, decode_route-one_hop)
