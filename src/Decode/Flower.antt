-- ===== src/Decode/Flower.antt =====
-- The match and the actions of a flower filter, as src/tc_decode.c decodes them.
use flower_route.Base.{
  ℕ, ◌+◌, ◌%◌, ◌&&◌, Option, none, some, List, [], ◌∷◌, ltb, ◌==◌, if◌then◌else◌,
}
use flower_route.Base.Bytes.{htons}
use flower_route.Ret.{Ret, ok, ◌>>=◌}
use flower_route.AfAddr.{af_inet, af_inet6, build_af_addr}
use flower_route.TcRule.{TcRule, tc_rule_mark_alien}
use flower_route.TcRule.Have
use flower_route.Netlink.{Payload, Attrs, Mnl, u8, u16, u32, nested_type, binary}
use flower_route.Netlink.Names
use flower_route.Netlink.Table.{AttrTable, TypeMap, type_map, parse_table}
use flower_route.Decode.Reads.{octets_of, nested_attrs, read_u8, read_u32, u16_or}
use flower_route.Decode.Actions.{add_trait, decode_act}

abbrev pub tc_flower_attr_types : TypeMap
tc_flower_attr_types = type_map (
    (Names.tca_flower_act, nested_type)
    ∷ (Names.tca_flower_key_eth_type, u16)
    ∷ (Names.tca_flower_key_ipv4_src, u32)
    ∷ (Names.tca_flower_key_ipv4_src_mask, u32)
    ∷ (Names.tca_flower_key_ipv4_dst, u32)
    ∷ (Names.tca_flower_key_ipv4_dst_mask, u32)
    ∷ (Names.tca_flower_key_ipv6_dst, binary)
    ∷ (Names.tca_flower_key_ipv6_dst_mask, binary)
    ∷ (Names.tca_flower_flags, u32)
    ∷ (Names.tca_flower_key_vlan_eth_type, u16)
    ∷ (Names.tca_flower_key_ip_ttl, u8)
    ∷ (Names.tca_flower_key_ip_ttl_mask, u8)
    ∷ (Names.tca_flower_in_hw_count, u32)
    ∷ [])

-- The ones of a netmask, from the octets on; `none` where an octet is no part of a mask. `ret` is a
-- `uint8_t`.
unfoldable pub ones_loop : List ℕ → ℕ → Option ℕ
ones_loop [] ret = some ret
ones_loop (octet ∷ rest) ret =
    let later = ones_loop rest ((ret + 8) % 256) in
    if octet == 0xff
    then later
    else if octet == 0xfe
    then some ((ret + 7) % 256)
    else if octet == 0xfc
    then some ((ret + 6) % 256)
    else if octet == 0xf8
    then some ((ret + 5) % 256)
    else if octet == 0xf0
    then some ((ret + 4) % 256)
    else if octet == 0xe0
    then some ((ret + 3) % 256)
    else if octet == 0xc0
    then some ((ret + 2) % 256)
    else if octet == 0x80
    then some ((ret + 1) % 256)
    else if octet == 0x00
    then some ret
    else none

abbrev pub length_or_alien : Option ℕ → TcRule → Ret (ℕ × TcRule)
length_or_alien (some ret) rule = ok (ret, rule)
length_or_alien none rule = do rule' ← tc_rule_mark_alien rule; ok (0, rule')

-- The length of the prefix, and the rule, which is alien if there is none.
unfoldable pub count_ones : Option Payload → TcRule → Ret (ℕ × TcRule)
unfolding ones_loop tc_rule_mark_alien
count_ones none rule = length_or_alien none rule
count_ones (some p) rule = do octets ← octets_of p; length_or_alien (ones_loop octets 0) rule

-- The destination of a family, if the filter matches on one.
unfoldable pub decode_dst : ℕ → Option Payload → Option Payload → TcRule → Ret TcRule
unfolding count_ones build_af_addr
decode_dst af none mask rule = ok rule
decode_dst af (some dst) mask rule = do
  addr ← octets_of dst
  (mask_len, rule') ← count_ones mask rule
  af_addr ← build_af_addr af (some addr) mask_len
  ok (add_trait Have.ip (record rule' { af_addr = af_addr }))

-- `rule->af_addr.af = af; rule->traits |= TC_RULE_HAVE_AF;`
abbrev pub set_af : ℕ → TcRule → TcRule
set_af af rule = add_trait Have.af (record rule { af_addr = record (rule.af_addr) { af = af } })

-- The `switch` over the ethertype, where the two ethertypes agree.
unfoldable pub decode_family : AttrTable → (vlan_ethertype ethertype : ℕ) → TcRule → Ret TcRule
unfolding decode_dst tc_rule_mark_alien
decode_family tb vlan_ethertype ethertype rule =
    if ltb 0 vlan_ethertype && (vlan_ethertype == ethertype)
    then (if vlan_ethertype == Names.eth_p_ip
        then decode_dst af_inet (tb Names.tca_flower_key_ipv4_dst)
            (tb Names.tca_flower_key_ipv4_dst_mask) (set_af af_inet rule)
        else if vlan_ethertype == Names.eth_p_ipv6
        then decode_dst af_inet6 (tb Names.tca_flower_key_ipv6_dst)
            (tb Names.tca_flower_key_ipv6_dst_mask) (set_af af_inet6 rule)
        else tc_rule_mark_alien rule)
    else tc_rule_mark_alien rule

unfoldable pub decode_ttl : Option Payload → TcRule → Ret TcRule
unfolding read_u8 tc_rule_mark_alien
decode_ttl none rule = ok rule
decode_ttl (some p) rule = do
  ttl ← read_u8 p
  if ttl == 1 then ok (add_trait Have.ttl_check rule) else tc_rule_mark_alien rule

unfoldable pub decode_flags : Option Payload → TcRule → Ret TcRule
decode_flags none rule = ok rule
decode_flags (some p) rule = do flags ← read_u32 p; ok (record rule { flower_flags = flags })

module _ (m : Mnl) where
  unfoldable pub decode_acts : Option Payload → TcRule → Ret TcRule
  unfolding decode_act tc_rule_mark_alien
  decode_acts none rule = tc_rule_mark_alien rule
  decode_acts (some p) rule = do list ← nested_attrs (some p); m.parse (decode_act m) list rule

  unfoldable pub decode_flower : Attrs → TcRule → Ret TcRule
  unfolding parse_table decode_acts decode_flags decode_ttl decode_family
  decode_flower list rule = do
    tb ← parse_table m Names.tca_flower_max tc_flower_attr_types list
    rule ← decode_acts (tb Names.tca_flower_act) rule
    rule ← decode_flags (tb Names.tca_flower_flags) rule
    rule ← decode_ttl (tb Names.tca_flower_key_ip_ttl) rule
    vlan_ethertype ← u16_or (tb Names.tca_flower_key_vlan_eth_type) 0
    ethertype ← u16_or (tb Names.tca_flower_key_eth_type) 0
    decode_family tb (htons vlan_ethertype) (htons ethertype) rule
