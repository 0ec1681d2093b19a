-- ===== src/Encode/Actions.antt =====
-- The actions of a rule, as src/tc_encode.c encodes them.
use Prim.Native.String.{String}
use flower_route.Base.{ℕ, [], ◌∷◌, if◌then◌else◌, ◌==◌}
use flower_route.Base.Bytes.{bytes16, htonl}
use flower_route.AfAddr.{af_inet, af_inet6}
use flower_route.TcRule.{TcRule}
use flower_route.Netlink.{
  PeditKey, octets, strz, nested, gact_parms, vlan_parms, pedit_parms, mirred_parms, csum_parms,
  Attrs, end, put, ◌&◌,
}
use flower_route.Netlink.Names

-- `tce_action_start` and `tce_action_end`, with what stands between them.
unfoldable pub tce_action : ℕ → String → Attrs → Attrs
tce_action act_no kind opts =
    put act_no
      (nested (put Names.tca_act_kind (strz kind) & put Names.tca_act_options (nested opts)))

unfoldable pub tce_simple_gact : ℕ → Attrs
unfolding tce_action
tce_simple_gact action =
    put Names.tca_flower_act
      (nested (tce_action 1 "gact" (put Names.tca_gact_parms (gact_parms action))))

unfoldable pub tce_modify_vlan_action : ℕ → ℕ → Attrs
unfolding tce_action
tce_modify_vlan_action act_no vlan_id = tce_action act_no "vlan" (
    put Names.tca_vlan_parms (vlan_parms Names.tca_vlan_act_modify Names.tc_act_pipe)
    & put Names.tca_vlan_push_vlan_id (octets (bytes16 vlan_id)))

abbrev pub put_u16 : ℕ → ℕ → Attrs
put_u16 type v = put type (octets (bytes16 v))

-- One of the three keys that set the MAC addresses.
abbrev pub set_ex_key : Attrs
set_ex_key = put Names.tca_pedit_key_ex (
    nested (
      put_u16 Names.tca_pedit_key_ex_cmd Names.tca_pedit_key_ex_cmd_set
      & put_u16 Names.tca_pedit_key_ex_htype Names.tca_pedit_key_ex_hdr_type_eth))

-- The header type of the key that decrements the TTL or the hop limit; none for another family.
abbrev pub ttl_htype : ℕ → Attrs
ttl_htype af =
    if af == af_inet
    then put_u16 Names.tca_pedit_key_ex_htype Names.tca_pedit_key_ex_hdr_type_ip4
    else if af == af_inet6
    then put_u16 Names.tca_pedit_key_ex_htype Names.tca_pedit_key_ex_hdr_type_ip6
    else end

abbrev pub ttl_ex_key : ℕ → Attrs
ttl_ex_key af =
    put Names.tca_pedit_key_ex
      (nested (put_u16 Names.tca_pedit_key_ex_cmd Names.tca_pedit_key_ex_cmd_add & ttl_htype af))

abbrev pub mac_key : ℕ → ℕ → PeditKey
mac_key off word = record { mask = 0; val = word; off = off }

abbrev pub ttl_key : ℕ → PeditKey
ttl_key af =
    if af == af_inet
    then record { mask = htonl 0x00ffffff; val = htonl 0xff000000; off = 8 }
    else if af == af_inet6
    then record { mask = htonl 0xffffff00; val = htonl 0x000000ff; off = 4 }
    else record { mask = 0; val = 0; off = 0 }

unfoldable pub tce_pedit_action : ℕ → TcRule → Attrs
unfolding tce_action
tce_pedit_action act_no tcr = tce_action act_no "pedit" (
    put Names.tca_pedit_keys_ex
      (nested (set_ex_key & set_ex_key & set_ex_key & ttl_ex_key tcr.af_addr.af))
    & put Names.tca_pedit_parms_ex (
        pedit_parms Names.tc_act_pipe (
          mac_key 0 tcr.raw0
          ∷ mac_key 4 tcr.raw1
          ∷ mac_key 8 tcr.raw2
          ∷ ttl_key tcr.af_addr.af
          ∷ [])))

unfoldable pub tce_redirect_action : (ifidx : ℕ) → ℕ → Attrs
unfolding tce_action
tce_redirect_action ifidx act_no =
    tce_action act_no "mirred"
      (put Names.tca_mirred_parms (mirred_parms Names.tca_egress_redir Names.tc_act_stolen ifidx))

unfoldable pub tce_csum_action : ℕ → Attrs
unfolding tce_action
tce_csum_action act_no =
    tce_action act_no "csum"
      (put Names.tca_csum_parms (csum_parms Names.tca_csum_update_flag_ipv4hdr Names.tc_act_pipe))

-- `++act_no` before each action; the checksum's only for IPv4.
unfoldable pub tce_add_ip_forward_rule : (ifidx : ℕ) → TcRule → Attrs
unfolding tce_modify_vlan_action tce_pedit_action tce_redirect_action tce_csum_action
tce_add_ip_forward_rule ifidx rule = put Names.tca_flower_act (
    nested (
      tce_modify_vlan_action 1 rule.vlan_id
      & tce_pedit_action 2 rule
      & (if rule.af_addr.af == af_inet
          then tce_csum_action 3 & tce_redirect_action ifidx 4
          else tce_redirect_action ifidx 3)))
