-- ===== src/Receive/Names.antt =====
-- The attribute types, message types and other constants of the kernel's headers that
-- src/nl_decode.c names (linux/rtnetlink.h, linux/if_link.h, linux/neighbour.h, net/if_arp.h).
use flower_route.Base.{ℕ}

abbrev pub arphrd_ether : ℕ
arphrd_ether = 1

abbrev pub rtm_newlink : ℕ
rtm_newlink = 16

abbrev pub rtm_dellink : ℕ
rtm_dellink = 17

abbrev pub rtm_newroute : ℕ
rtm_newroute = 24

abbrev pub rtm_delroute : ℕ
rtm_delroute = 25

abbrev pub rtm_newneigh : ℕ
rtm_newneigh = 28

abbrev pub rtm_delneigh : ℕ
rtm_delneigh = 29

abbrev pub rtm_getneigh : ℕ
rtm_getneigh = 30

abbrev pub rtm_newqdisc : ℕ
rtm_newqdisc = 36

abbrev pub rtm_delqdisc : ℕ
rtm_delqdisc = 37

abbrev pub rtm_newchain : ℕ
rtm_newchain = 100

abbrev pub rtm_delchain : ℕ
rtm_delchain = 101

abbrev pub ifla_address : ℕ
ifla_address = 1

abbrev pub ifla_ifname : ℕ
ifla_ifname = 3

abbrev pub ifla_mtu : ℕ
ifla_mtu = 4

abbrev pub ifla_link : ℕ
ifla_link = 5

abbrev pub ifla_linkinfo : ℕ
ifla_linkinfo = 18

abbrev pub ifla_prop_list : ℕ
ifla_prop_list = 52

abbrev pub ifla_max : ℕ
ifla_max = 63

abbrev pub ifla_info_kind : ℕ
ifla_info_kind = 1

abbrev pub ifla_info_data : ℕ
ifla_info_data = 2

abbrev pub ifla_info_max : ℕ
ifla_info_max = 5

abbrev pub ifla_vlan_id : ℕ
ifla_vlan_id = 1

abbrev pub ifla_vlan_flags : ℕ
ifla_vlan_flags = 2

abbrev pub ifla_vlan_protocol : ℕ
ifla_vlan_protocol = 5

abbrev pub ifla_vlan_max : ℕ
ifla_vlan_max = 5

abbrev pub nda_dst : ℕ
nda_dst = 1

abbrev pub nda_lladdr : ℕ
nda_lladdr = 2

abbrev pub nda_cacheinfo : ℕ
nda_cacheinfo = 3

abbrev pub nda_probes : ℕ
nda_probes = 4

abbrev pub nda_max : ℕ
nda_max = 16

abbrev pub rta_dst : ℕ
rta_dst = 1

abbrev pub rta_src : ℕ
rta_src = 2

abbrev pub rta_oif : ℕ
rta_oif = 4

abbrev pub rta_gateway : ℕ
rta_gateway = 5

abbrev pub rta_priority : ℕ
rta_priority = 6

abbrev pub rta_prefsrc : ℕ
rta_prefsrc = 7

abbrev pub rta_metrics : ℕ
rta_metrics = 8

abbrev pub rta_multipath : ℕ
rta_multipath = 9

abbrev pub rta_flow : ℕ
rta_flow = 11

abbrev pub rta_cacheinfo : ℕ
rta_cacheinfo = 12

abbrev pub rta_table : ℕ
rta_table = 15

abbrev pub rtax_max : ℕ
rtax_max = 17
