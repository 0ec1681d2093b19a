-- ===== src/Encode/Prefix.antt =====
-- The match on a destination prefix, as src/tc_encode.c encodes it.
use flower_route.Base.{
  ℕ, zero, suc, ◌+◌, ◌-◌, ◌*◌, ◌%◌, ◌^◌, Bool, ◌&&◌, List, [], ◌∷◌, ltb, leb, ◌==◌, if◌then◌else◌,
}
use flower_route.Base.Bytes.{bytes32, htonl}
use flower_route.AfAddr.{af_inet, af_inet6, take}
use flower_route.TcRule.{TcRule}
use flower_route.Netlink.{octets, Attrs, end, put, ◌&◌}
use flower_route.Netlink.Names

-- The rounds left, `rem`, and the octets that are set already.
unfoldable pub ipv6_mask_loop : ℕ → ℕ → List ℕ → List ℕ
ipv6_mask_loop zero rem done = done
ipv6_mask_loop (suc i) rem done =
    ipv6_mask_loop i (if leb 8 rem then rem - 8 else 0)
      ((if leb 8 rem then 0x00 else 0xff * 2 ^ rem % 256) ∷ done)

-- `rem` is a `uint8_t`.
unfoldable pub tce_build_ipv6_mask : ℕ → List ℕ
unfolding ipv6_mask_loop
tce_build_ipv6_mask mask_len = ipv6_mask_loop 16 ((256 + 128 - mask_len) % 256) []

-- The `uint32_t ip4_mask`, in network order, for a length up to 32.
unfoldable pub ip4_mask : ℕ → ℕ
ip4_mask mask_len = if ltb 0 mask_len then htonl (0xffffffff * 2 ^ (32 - mask_len) % 2 ^ 32) else 0

unfoldable pub tce_match_prefix : Bool → TcRule → Attrs
unfolding tce_build_ipv6_mask ip4_mask
tce_match_prefix loopback tcr =
    let pfx = tcr.af_addr in
    if pfx.af == af_inet
    then (if loopback && (pfx.mask_len == 0)
        then end
        else put Names.tca_flower_key_ipv4_dst (octets (take 4 pfx.addr))
          & put Names.tca_flower_key_ipv4_dst_mask (octets (bytes32 (ip4_mask pfx.mask_len))))
    else if pfx.af == af_inet6
    then put Names.tca_flower_key_ipv6_dst (octets (take 16 pfx.addr))
      & put Names.tca_flower_key_ipv6_dst_mask (octets (tce_build_ipv6_mask pfx.mask_len))
    else end
