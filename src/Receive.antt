-- ===== src/Receive.antt =====
-- src/nl_decode.c: what the kernel's messages of links, neighbours and routes ask of the tables.
-- A decoder returns the arguments of the call that it makes into src/obj_link.c, src/obj_neigh.c or
-- src/obj_route.c, or `none` where it makes none. libmnl is a parameter; a read through NULL, a read
-- past a payload and a payload of another kind than its reader expects are `aborted`.
pub mod Names
pub mod Vlan
pub mod Dispatch
pub mod Handled
pub mod Hops
pub mod Peers
mod Tests
use Prim.Native.String.{String}
use text.Mathlib.Text.{◌==◌ as str_eq}
use flower_route.Base.{
  ℕ, Bool, true, false, ◌&&◌, not, Option, none, some, List, [], ◌∷◌, length, ◌==◌, leb, is_some,
  if◌then◌else◌,
}
use flower_route.Base.Chars.{codes}
use flower_route.Ret.{Ret, ok, error, aborted, assert, ◌>>=◌, ◌>>◌}
use flower_route.AfAddr.{af_inet, af_inet6, take}
use flower_route.Netlink.{
  Payload, octets, nexthops, Nexthops, no_more, nexthop, Attrs, Mnl, u8, u16, u32, nul_string,
  nested_type, binary,
}
use flower_route.Netlink.Table.{AttrTable, TypeMap, type_map, empty_table, parse_table}
use flower_route.Decode.Reads.{
  required, octets_of, nested_attrs, read_u32, u16_or, u32_or, str_or_null,
}
use flower_route.Links.{LinkInfo}

-- `struct nlmsghdr` and `struct ifinfomsg`, the fields that are used, and the attributes.
pub record LinkMessage : Type 0 where
  pub nlmsg_type : ℕ
  pub ifi_type : ℕ
  pub ifi_index : ℕ
  pub attrs : Attrs

-- `struct nlmsghdr` and `struct ndmsg`.
pub record NeighMessage : Type 0 where
  pub nlmsg_type : ℕ
  pub ndm_ifindex : ℕ
  pub ndm_family : ℕ
  pub attrs : Attrs

-- `struct nlmsghdr` and `struct rtmsg`.
pub record RouteMessage : Type 0 where
  pub nlmsg_type : ℕ
  pub rtm_family : ℕ
  pub rtm_dst_len : ℕ
  pub attrs : Attrs

abbrev pub link_attr_types : TypeMap
link_attr_types = type_map (
    (Names.ifla_address, binary)
    ∷ (Names.ifla_mtu, u32)
    ∷ (Names.ifla_ifname, nul_string)
    ∷ (Names.ifla_link, u32)
    ∷ (Names.ifla_linkinfo, nested_type)
    ∷ (Names.ifla_prop_list, nested_type)
    ∷ [])

abbrev pub link_info_attr_types : TypeMap
link_info_attr_types =
    type_map ((Names.ifla_info_kind, nul_string) ∷ (Names.ifla_info_data, nested_type) ∷ [])

abbrev pub link_vlan_attr_types : TypeMap
link_vlan_attr_types = type_map (
    (Names.ifla_vlan_id, u16)
    ∷ (Names.ifla_vlan_flags, binary)
    ∷ (Names.ifla_vlan_protocol, u16)
    ∷ [])

abbrev pub neigh_attr_types : TypeMap
neigh_attr_types = type_map (
    (Names.nda_dst, binary)
    ∷ (Names.nda_lladdr, binary)
    ∷ (Names.nda_cacheinfo, binary)
    ∷ (Names.nda_probes, u32)
    ∷ [])

abbrev pub route4_attr_types : TypeMap
route4_attr_types = type_map (
    (Names.rta_table, u32)
    ∷ (Names.rta_oif, u32)
    ∷ (Names.rta_flow, u32)
    ∷ (Names.rta_priority, u32)
    ∷ (Names.rta_dst, u32)
    ∷ (Names.rta_src, u32)
    ∷ (Names.rta_prefsrc, u32)
    ∷ (Names.rta_gateway, u32)
    ∷ (Names.rta_metrics, nested_type)
    ∷ (Names.rta_multipath, binary)
    ∷ [])

abbrev pub route6_attr_types : TypeMap
route6_attr_types = type_map (
    (Names.rta_table, u32)
    ∷ (Names.rta_oif, u32)
    ∷ (Names.rta_flow, u32)
    ∷ (Names.rta_priority, u32)
    ∷ (Names.rta_dst, binary)
    ∷ (Names.rta_src, binary)
    ∷ (Names.rta_prefsrc, binary)
    ∷ (Names.rta_gateway, binary)
    ∷ (Names.rta_metrics, nested_type)
    ∷ (Names.rta_multipath, binary)
    ∷ (Names.rta_cacheinfo, binary)
    ∷ [])

-- What is read of a payload of at least that many bytes.
abbrev pub bytes_at_least : ℕ → Payload → Ret (List ℕ)
bytes_at_least n p = do bs ← octets_of p; assert (leb n (length bs)); ok (take n bs)

-- `tb[T] ? mnl_attr_get_payload(tb[T]) : NULL`, for an object of `n` bytes.
abbrev pub bytes_or_null : ℕ → Option Payload → Ret (Option (List ℕ))
bytes_or_null n none = ok none
bytes_or_null n (some p) = do bs ← bytes_at_least n p; ok (some bs)

abbrev pub text_of : Option String → Option (List ℕ)
text_of none = none
text_of (some s) = some (codes s)

-- `strcmp(kind, "vlan") == 0`
abbrev pub is_vlan : Option String → Bool
is_vlan none = false
is_vlan (some kind) = str_eq kind "vlan"

-- The bytes of an address of a family, which `build_af_addr` copies; for another family it asserts
-- before it reads.
abbrev pub addr_size : ℕ → ℕ
addr_size af = if af == af_inet then 4 else if af == af_inet6 then 16 else 0

-- A pointer to an object of the caller's: NULL is `ok none`, and one that cannot be read is
-- `aborted` where it is used.
abbrev pub Pointer : Type 0
Pointer = Ret (Option (List ℕ))

-- The arguments of `obj_link_netlink_update`.
pub record LinkUpdate : Type 0 where
  pub nlmsg_type : ℕ
  pub ifindex : ℕ
  pub info : LinkInfo

-- The arguments of `obj_neigh_netlink_update`.
pub record NeighUpdate : Type 0 where
  pub nlmsg_type : ℕ
  pub ifindex : ℕ
  pub af : ℕ
  pub addr : Pointer
  pub lladdr : Option (List ℕ)

-- The next hop of a route: the arguments of `obj_neigh_netlink_get`.
pub record Hop : Type 0 where
  pub oif : ℕ
  pub gateway : Pointer

-- What `decode_route` goes on with: the next hop, if there is one, the family and the destination.
pub record RouteUpdate : Type 0 where
  pub nlmsg_type : ℕ
  pub af : ℕ
  pub hop : Hop
  pub dst : Pointer
  pub dst_len : ℕ

abbrev pub gateway_of : ℕ → Option Payload → Pointer
gateway_of af p = do q ← required p; bs ← bytes_at_least (addr_size af) q; ok (some bs)

module _ (m : Mnl) where
  -- The attributes in `IFLA_LINKINFO`, if it is there.
  abbrev pub info_table : Option Payload → Ret AttrTable
  info_table none = ok empty_table
  info_table (some p) = do
    list ← nested_attrs (some p)
    parse_table m Names.ifla_info_max link_info_attr_types list

  -- Those in `IFLA_INFO_DATA`, of a VLAN.
  abbrev pub vlan_table : AttrTable → Bool → Ret AttrTable
  vlan_table tb_info false = ok empty_table
  vlan_table tb_info true = do
    list ← nested_attrs (tb_info Names.ifla_info_data)
    parse_table m Names.ifla_vlan_max link_vlan_attr_types list

  -- What follows the test of the lower link.
  unfoldable pub link_update :
      LinkMessage → AttrTable → (lower_ifindex : ℕ) → Ret (Option LinkUpdate)
  unfolding parse_table
  link_update nlh tb lower_ifindex = do
    ifname ← str_or_null (tb Names.ifla_ifname)
    lladdr ← bytes_or_null 6 (tb Names.ifla_address)
    mtu ← u32_or (tb Names.ifla_mtu) 0
    tb_info ← info_table (tb Names.ifla_linkinfo)
    kind ← str_or_null (tb_info Names.ifla_info_kind)
    tb_vlan ← vlan_table tb_info (is_vlan kind)
    vlan_id ← u16_or (tb_vlan Names.ifla_vlan_id) 0
    ok (
        some (record {
          nlmsg_type = nlh.nlmsg_type;
          ifindex = nlh.ifi_index;
          info = record {
            lladdr = lladdr;
            lower_ifindex = lower_ifindex;
            vlan_id = vlan_id;
            mtu = mtu;
            ifname = text_of ifname;
          };
        }))

  -- `config->ifidx` is the argument `ifidx`.
  unfoldable pub decode_link : (ifidx : ℕ) → LinkMessage → Ret (Option LinkUpdate)
  unfolding parse_table
  decode_link ifidx nlh = if not (nlh.ifi_type == Names.arphrd_ether) then ok none else do
    tb ← parse_table m Names.ifla_max link_attr_types nlh.attrs
    lower_ifindex ← u32_or (tb Names.ifla_link) 0
    if lower_ifindex == ifidx then link_update nlh tb lower_ifindex else ok none

  unfoldable pub decode_neigh : NeighMessage → Ret NeighUpdate
  unfolding parse_table
  decode_neigh nlh = do
    tb ← parse_table m Names.nda_max neigh_attr_types nlh.attrs
    lladdr ← bytes_or_null 6 (tb Names.nda_lladdr)
    ok (record {
      nlmsg_type = nlh.nlmsg_type;
      ifindex = nlh.ndm_ifindex;
      af = nlh.ndm_family;
      addr = bytes_or_null (addr_size nlh.ndm_family) (tb Names.nda_dst);
      lladdr = lladdr;
    })

  -- `attr_cb`: the map of the family; `none` is the early return.
  abbrev pub route_attr_types : ℕ → Option TypeMap
  route_attr_types af =
      if af == af_inet
      then some route4_attr_types
      else if af == af_inet6
      then some route6_attr_types
      else none

  abbrev pub nexthops_of : Payload → Ret Nexthops
  nexthops_of (nexthops l) = ok l
  nexthops_of _ = aborted

  -- NULL where the attributes of the next hop cannot be read.
  abbrev pub hop_of : (af rtnh_ifindex : ℕ) → Ret AttrTable → Ret (Option Hop)
  hop_of af rtnh_ifindex (ok tb) =
      ok (some (record { oif = rtnh_ifindex; gateway = gateway_of af (tb Names.rta_gateway) }))
  hop_of af rtnh_ifindex error = ok none
  hop_of af rtnh_ifindex aborted = aborted

  -- The loop returns in its first round, with the first next hop's target or NULL.
  unfoldable pub decode_multipath : TypeMap → (af : ℕ) → Nexthops → Ret (Option Hop)
  unfolding parse_table
  decode_multipath typemap af no_more = ok none
  decode_multipath typemap af (nexthop rtnh_ifindex attrs rest) =
      hop_of af rtnh_ifindex (parse_table m Names.rtax_max typemap attrs)

  abbrev pub unipath_hop : ℕ → AttrTable → Ret (Option Hop)
  unipath_hop af tb =
      if is_some (tb Names.rta_oif) && is_some (tb Names.rta_gateway)
      then (do
        oif ← u32_or (tb Names.rta_oif) 0
        ok (some (record { oif = oif; gateway = gateway_of af (tb Names.rta_gateway) })))
      else ok none

  unfoldable pub route_hop : TypeMap → ℕ → AttrTable → Option Payload → Ret (Option Hop)
  unfolding decode_multipath
  route_hop typemap af tb none = unipath_hop af tb
  route_hop typemap af tb (some multipath) = do
    l ← nexthops_of multipath
    decode_multipath typemap af l

  abbrev pub route_update : RouteMessage → AttrTable → Option Hop → Option RouteUpdate
  route_update nlh tb none = none
  route_update nlh tb (some hop) = some (record {
    nlmsg_type = nlh.nlmsg_type;
    af = nlh.rtm_family;
    hop = hop;
    dst = gateway_of nlh.rtm_family (tb Names.rta_dst);
    dst_len = nlh.rtm_dst_len;
  })

  -- `config->table_id` is the argument `table_id`.
  unfoldable pub route_of : (table_id : ℕ) → RouteMessage → TypeMap → Ret (Option RouteUpdate)
  unfolding parse_table route_hop
  route_of table_id nlh typemap = do
    tb ← parse_table m Names.rtax_max typemap nlh.attrs
    p ← required (tb Names.rta_table)
    table ← read_u32 p
    if (table == table_id) && is_some (tb Names.rta_dst)
        then (do
          hop ← route_hop typemap nlh.rtm_family tb (tb Names.rta_multipath)
          ok (route_update nlh tb hop))
        else ok none

  abbrev pub unless_none :
      Option TypeMap → (TypeMap → Ret (Option RouteUpdate)) → Ret (Option RouteUpdate)
  unless_none none f = ok none
  unless_none (some typemap) f = f typemap

  unfoldable pub decode_route : (table_id : ℕ) → RouteMessage → Ret (Option RouteUpdate)
  unfolding route_of
  decode_route table_id nlh = unless_none (route_attr_types nlh.rtm_family) (route_of table_id nlh)
