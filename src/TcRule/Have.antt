-- ===== src/TcRule/Have.antt =====
-- `enum tc_rule_traits` and `TC_RULE_HAVE_AF_IP` of src/tc_rule.h.
use flower_route.Base.{ℕ, bit_or}

abbrev pub af : ℕ
af = 0x01

abbrev pub ip : ℕ
ip = 0x02

abbrev pub goto : ℕ
goto = 0x04

abbrev pub trap : ℕ
trap = 0x08

abbrev pub ttl_check : ℕ
ttl_check = 0x10

abbrev pub ttl_dec : ℕ
ttl_dec = 0x20

abbrev pub lladdr : ℕ
lladdr = 0x40

abbrev pub vlan_mod : ℕ
vlan_mod = 0x80

abbrev pub af_ip : ℕ
af_ip = bit_or af ip
