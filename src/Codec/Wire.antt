-- ===== src/Codec/Wire.antt =====
-- The rules that a netlink message can carry in full: those that the daemon makes.
use flower_route.Base.{ℕ, ◌^◌, ◌≤◌, ◌<◌, ◌≡◌, List, [], ◌∷◌, ◌++◌, length}
use flower_route.AfAddr.{AfAddr, af_inet, af_inet6, replicate}
use flower_route.TcRule.{forward, route_trap, route_goto, ttl_check, TcRule, zero_rule}
use flower_route.Codec.Pedit.{Family, af_no}

-- A family without a prefix.
abbrev pub family_addr : Family → AfAddr
family_addr f = record { af = af_no f; mask_len = 0; addr = replicate 16 0 }

-- What the rules of each type hold beside the defaults.
abbrev pub forward_rule : Family → (flags vlan_id w0 w1 w2 : ℕ) → TcRule
forward_rule f flags vlan_id w0 w1 w2 = record {
  type = forward;
  vlan_id = vlan_id;
  flower_flags = flags;
  goto_target = 0;
  traits = 0xe1;
  af_addr = family_addr f;
  ttl = 0;
  raw0 = w0;
  raw1 = w1;
  raw2 = w2;
}

abbrev pub trap_rule : AfAddr → (flags : ℕ) → TcRule
trap_rule addr flags = record zero_rule {
  type = route_trap;
  flower_flags = flags;
  traits = 0x0b;
  af_addr = addr;
}

abbrev pub goto_rule : AfAddr → (flags target : ℕ) → TcRule
goto_rule addr flags target = record zero_rule {
  type = route_goto;
  flower_flags = flags;
  goto_target = target;
  traits = 0x07;
  af_addr = addr;
}

abbrev pub ttl_rule : Family → (flags : ℕ) → TcRule
ttl_rule f flags = record zero_rule {
  type = ttl_check;
  flower_flags = flags;
  traits = 0x19;
  af_addr = family_addr f;
}

-- A prefix that the encoder writes out. One of IPv4 and length 0 is left out in loopback mode.
pub data IsPrefix : AfAddr → Type 0 where
  prefix4 :
      (a b c d n : ℕ)
      → 0 < n
      → n ≤ 32
      → IsPrefix
          (record { af = af_inet; mask_len = n; addr = (a ∷ b ∷ c ∷ d ∷ []) ++ replicate 12 0 })
  prefix6 :
      (addr : List ℕ) (n : ℕ)
      → length addr ≡ 16
      → n ≤ 128
      → IsPrefix (record { af = af_inet6; mask_len = n; addr = addr })

-- The rules that survive the way over the wire, with the ranges of their fields.
pub data IsWire : TcRule → Type 0 where
  forwards :
      (f : Family) (flags vlan_id w0 w1 w2 : ℕ)
      → flags < 2 ^ 32
      → 0 < vlan_id
      → vlan_id < 2 ^ 16
      → IsWire (forward_rule f flags vlan_id w0 w1 w2)
  traps :
      {addr : AfAddr} (flags : ℕ) → flags < 2 ^ 32 → IsPrefix addr → IsWire (trap_rule addr flags)
  gotos :
      {addr : AfAddr} (flags target : ℕ)
      → flags < 2 ^ 32
      → target < 2 ^ 28
      → IsPrefix addr
      → IsWire (goto_rule addr flags target)
  gotos_default :
      (flags target : ℕ)
      → flags < 2 ^ 32
      → target < 2 ^ 28
      → IsWire (goto_rule (family_addr Family.v4) flags target)
  checks_ttl : (f : Family) (flags : ℕ) → flags < 2 ^ 32 → IsWire (ttl_rule f flags)
