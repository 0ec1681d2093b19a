-- ===== src/Receive/Vlan.antt =====
-- The kernel's message of a VLAN on the interface, and what src/nl_decode.c makes of it.
use Prim.Native.String.{String}
use flower_route.Base.{==_refl, ℕ, ◌^◌, ◌<◌, ◌≡◌, refl, some, List, length, arith}
use flower_route.Base.Bytes.{bytes16, bytes32, load16-bytes16, load32-bytes32}
use flower_route.Base.Chars.{codes}
use flower_route.Ret.{ok}
use flower_route.AfAddr.{take-length}
use flower_route.Netlink.{octets, strz, nested, Attrs, put, ◌&◌, Mnl}
use flower_route.Netlink.Table.{parse_table-fill}
use flower_route.Decode.Reads.{read_str}
use flower_route.Links.{LinkInfo}
use flower_route.Receive.{
  LinkMessage, link_attr_types, link_info_attr_types, link_vlan_attr_types, link_update,
  decode_link,
}
use flower_route.Receive.Names

-- `IFLA_LINKINFO` of a VLAN.
abbrev pub vlan_info : (vlan_id : ℕ) → Attrs
vlan_info vlan_id =
    put Names.ifla_info_kind (strz "vlan")
    & put Names.ifla_info_data (nested (put Names.ifla_vlan_id (octets (bytes16 vlan_id))))

-- A VLAN link, as the kernel describes it.
pub record Vlan : Type 0 where
  pub ifname : String
  pub lladdr : List ℕ
  pub mtu : ℕ
  pub lower : ℕ
  pub vlan_id : ℕ

-- The fields are in range.
pub record InRange (v : Vlan) : Type 0 where
  pub six : length v.lladdr ≡ 6
  pub mtu_bits : v.mtu < 2 ^ 32
  pub lower_bits : v.lower < 2 ^ 32
  pub vlan_bits : v.vlan_id < 2 ^ 16

abbrev pub vlan_attrs : Vlan → Attrs
vlan_attrs v =
    put Names.ifla_ifname (strz v.ifname)
    & put Names.ifla_mtu (octets (bytes32 v.mtu))
    & put Names.ifla_link (octets (bytes32 v.lower))
    & put Names.ifla_linkinfo (nested (vlan_info v.vlan_id))
    & put Names.ifla_address (octets v.lladdr)

abbrev pub vlan_message : (nlmsg_type ifindex : ℕ) → Vlan → LinkMessage
vlan_message nlmsg_type ifindex v = record {
  nlmsg_type = nlmsg_type;
  ifi_type = Names.arphrd_ether;
  ifi_index = ifindex;
  attrs = vlan_attrs v;
}

abbrev pub vlan_said : Vlan → LinkInfo
vlan_said v = record {
  lladdr = some v.lladdr;
  lower_ifindex = v.lower;
  vlan_id = v.vlan_id;
  mtu = v.mtu;
  ifname = some (codes v.ifname);
}

module _ (m : Mnl) where
  pub decode_link-vlan_message :
      (nlmsg_type ifindex : ℕ) (v : Vlan)
      → InRange v
      → decode_link m v.lower (vlan_message nlmsg_type ifindex v)
        ≡ ok (some (record { nlmsg_type = nlmsg_type; ifindex = ifindex; info = vlan_said v }))
  unfolding decode_link link_update read_str
  decode_link-vlan_message nlmsg_type ifindex v r =
      rw
        (
          parse_table-fill m Names.ifla_max link_attr_types (vlan_attrs v) (
            (omega arith, refl, m.validate_text _),
            (
              (omega arith, refl, m.validate_u32 _ refl),
              (
                (omega arith, refl, m.validate_u32 _ refl),
                (
                  (omega arith, refl, m.validate_nested _),
                  ((omega arith, refl, m.validate_binary _), tt),
                ),
              ),
            ),
          ),
          load32-bytes32 v.lower r.lower_bits,
          parse_table-fill m Names.ifla_info_max link_info_attr_types (vlan_info v.vlan_id) (
            (omega arith, refl, m.validate_text _),
            ((omega arith, refl, m.validate_nested _), tt),
          ),
          parse_table-fill m Names.ifla_vlan_max link_vlan_attr_types
              (put Names.ifla_vlan_id (octets (bytes16 v.vlan_id)))
              ((omega arith, refl, m.validate_u16 _ refl), tt),
          load32-bytes32 v.mtu r.mtu_bits,
          load16-bytes16 v.vlan_id r.vlan_bits,
          take-length 6 v.lladdr r.six,
          r.six,
          ==_refl v.lower,
        )
        refl
