-- ===== src/Netlink/Names.antt =====
-- The attribute types, message types and other constants of the kernel's headers that
-- src/tc_encode.c and src/tc_decode.c name (linux/rtnetlink.h, linux/pkt_cls.h, linux/tc_act/*.h).
use flower_route.Base.{ℕ}

abbrev pub rtm_newtfilter : ℕ
rtm_newtfilter = 44

abbrev pub rtm_deltfilter : ℕ
rtm_deltfilter = 45

abbrev pub nlm_f_request : ℕ
nlm_f_request = 1

abbrev pub nlm_f_ack : ℕ
nlm_f_ack = 4

abbrev pub nlm_f_excl : ℕ
nlm_f_excl = 0x200

abbrev pub nlm_f_create : ℕ
nlm_f_create = 0x400

abbrev pub tca_kind : ℕ
tca_kind = 1

abbrev pub tca_options : ℕ
tca_options = 2

abbrev pub tca_stats : ℕ
tca_stats = 3

abbrev pub tca_xstats : ℕ
tca_xstats = 4

abbrev pub tca_stats2 : ℕ
tca_stats2 = 7

abbrev pub tca_chain : ℕ
tca_chain = 11

abbrev pub tca_hw_offload : ℕ
tca_hw_offload = 12

abbrev pub tca_max : ℕ
tca_max = 16

abbrev pub tca_flower_act : ℕ
tca_flower_act = 3

abbrev pub tca_flower_key_eth_type : ℕ
tca_flower_key_eth_type = 8

abbrev pub tca_flower_key_ipv4_src : ℕ
tca_flower_key_ipv4_src = 10

abbrev pub tca_flower_key_ipv4_src_mask : ℕ
tca_flower_key_ipv4_src_mask = 11

abbrev pub tca_flower_key_ipv4_dst : ℕ
tca_flower_key_ipv4_dst = 12

abbrev pub tca_flower_key_ipv4_dst_mask : ℕ
tca_flower_key_ipv4_dst_mask = 13

abbrev pub tca_flower_key_ipv6_dst : ℕ
tca_flower_key_ipv6_dst = 16

abbrev pub tca_flower_key_ipv6_dst_mask : ℕ
tca_flower_key_ipv6_dst_mask = 17

abbrev pub tca_flower_flags : ℕ
tca_flower_flags = 22

abbrev pub tca_flower_key_vlan_eth_type : ℕ
tca_flower_key_vlan_eth_type = 25

abbrev pub tca_flower_key_ip_ttl : ℕ
tca_flower_key_ip_ttl = 75

abbrev pub tca_flower_key_ip_ttl_mask : ℕ
tca_flower_key_ip_ttl_mask = 76

abbrev pub tca_flower_in_hw_count : ℕ
tca_flower_in_hw_count = 86

abbrev pub tca_flower_max : ℕ
tca_flower_max = 110

abbrev pub tca_act_kind : ℕ
tca_act_kind = 1

abbrev pub tca_act_options : ℕ
tca_act_options = 2

abbrev pub tca_act_index : ℕ
tca_act_index = 3

abbrev pub tca_act_stats : ℕ
tca_act_stats = 4

abbrev pub tca_act_used_hw_stats : ℕ
tca_act_used_hw_stats = 9

abbrev pub tca_act_in_hw_count : ℕ
tca_act_in_hw_count = 10

abbrev pub tca_act_max : ℕ
tca_act_max = 10

abbrev pub tca_gact_tm : ℕ
tca_gact_tm = 1

abbrev pub tca_gact_parms : ℕ
tca_gact_parms = 2

abbrev pub tca_gact_prob : ℕ
tca_gact_prob = 3

abbrev pub tca_gact_max : ℕ
tca_gact_max = 4

abbrev pub tca_vlan_tm : ℕ
tca_vlan_tm = 1

abbrev pub tca_vlan_parms : ℕ
tca_vlan_parms = 2

abbrev pub tca_vlan_push_vlan_id : ℕ
tca_vlan_push_vlan_id = 3

abbrev pub tca_vlan_push_vlan_protocol : ℕ
tca_vlan_push_vlan_protocol = 4

abbrev pub tca_vlan_max : ℕ
tca_vlan_max = 8

abbrev pub tca_pedit_tm : ℕ
tca_pedit_tm = 1

abbrev pub tca_pedit_parms_ex : ℕ
tca_pedit_parms_ex = 4

abbrev pub tca_pedit_keys_ex : ℕ
tca_pedit_keys_ex = 5

abbrev pub tca_pedit_key_ex : ℕ
tca_pedit_key_ex = 6

abbrev pub tca_pedit_max : ℕ
tca_pedit_max = 6

abbrev pub tca_pedit_key_ex_htype : ℕ
tca_pedit_key_ex_htype = 1

abbrev pub tca_pedit_key_ex_cmd : ℕ
tca_pedit_key_ex_cmd = 2

abbrev pub tca_pedit_key_ex_max : ℕ
tca_pedit_key_ex_max = 2

abbrev pub tca_pedit_key_ex_hdr_type_eth : ℕ
tca_pedit_key_ex_hdr_type_eth = 1

abbrev pub tca_pedit_key_ex_hdr_type_ip4 : ℕ
tca_pedit_key_ex_hdr_type_ip4 = 2

abbrev pub tca_pedit_key_ex_hdr_type_ip6 : ℕ
tca_pedit_key_ex_hdr_type_ip6 = 3

abbrev pub tca_pedit_key_ex_cmd_set : ℕ
tca_pedit_key_ex_cmd_set = 0

abbrev pub tca_pedit_key_ex_cmd_add : ℕ
tca_pedit_key_ex_cmd_add = 1

abbrev pub tca_csum_parms : ℕ
tca_csum_parms = 1

abbrev pub tca_csum_update_flag_ipv4hdr : ℕ
tca_csum_update_flag_ipv4hdr = 1

abbrev pub tca_mirred_tm : ℕ
tca_mirred_tm = 1

abbrev pub tca_mirred_parms : ℕ
tca_mirred_parms = 2

abbrev pub tca_mirred_max : ℕ
tca_mirred_max = 4

abbrev pub tca_egress_redir : ℕ
tca_egress_redir = 1

abbrev pub tca_vlan_act_modify : ℕ
tca_vlan_act_modify = 3

abbrev pub tc_act_pipe : ℕ
tc_act_pipe = 3

abbrev pub tc_act_stolen : ℕ
tc_act_stolen = 4

abbrev pub tc_act_trap : ℕ
tc_act_trap = 8

abbrev pub tc_act_goto_chain : ℕ
tc_act_goto_chain = 0x20000000

abbrev pub tca_cls_flags_skip_hw : ℕ
tca_cls_flags_skip_hw = 1

abbrev pub tca_cls_flags_skip_sw : ℕ
tca_cls_flags_skip_sw = 2

abbrev pub tca_cls_flags_in_hw : ℕ
tca_cls_flags_in_hw = 4

abbrev pub eth_p_ip : ℕ
eth_p_ip = 0x800

abbrev pub eth_p_ipv6 : ℕ
eth_p_ipv6 = 0x86dd

abbrev pub eth_p_8021q : ℕ
eth_p_8021q = 0x8100
