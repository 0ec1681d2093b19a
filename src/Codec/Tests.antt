-- ===== src/Codec/Tests.antt =====
-- The encoder and the decoder at concrete rules, over a concrete libmnl.
use flower_route.Base.{ℕ, ◌≡◌, refl, Bool, true, false, some, [], ◌∷◌, length, leb, ◌==◌, arith}
use flower_route.Base.Bytes.{bytes32}
use flower_route.Ret.{ok, ◌>>=◌}
use flower_route.Netlink.{Payload, octets, DataType, u8, u16, u32, each, Mnl}
use flower_route.Encode.{tc_encode_rule}
use flower_route.Encode.Prefix.{ip4_mask, tce_build_ipv6_mask}
use flower_route.Decode.{try_decode_filter}
use flower_route.Decode.Flower.{ones_loop}
use flower_route.AfAddr.{AfAddr}
use flower_route.Codec.Wire.{IsPrefix, IsWire, trap_rule}
use flower_route.Codec.Masks.{ones-ip4_mask, ones-ipv6_mask}
use flower_route.Keys.{u32cmp}
use flower_route.Search.{Tree, leaf, node, RbTree, in_order}
use flower_route.Chains.{Chain, present}
use flower_route.Chains.Table.{IsTable, Stored}
use flower_route.Decode.Dispatch.{decode_chain}
use flower_route.Codec.Reported.{chain_message, decode_chain-Stored}
use flower_route.Codec.RoundTrip.{round_trip}

-- The lengths that `mnl_attr_validate` checks.
abbrev has_length : ℕ → Payload → Bool
has_length n (octets bs) = length bs == n
has_length n _ = false

abbrev has_type : Payload → DataType → Bool
has_type p u8 = has_length 1 p
has_type p u16 = has_length 2 p
has_type p u32 = has_length 4 p
has_type p _ = true

abbrev plain_mnl : Mnl
plain_mnl = record {
  parse = λ cb list s. each cb list s;
  type_valid = leb;
  validate = has_type;
  parse_each = λ cb list s. refl;
  type_valid_le = λ type max h. ground arith;
  validate_u8 = λ bs h. ground arith;
  validate_u16 = λ bs h. ground arith;
  validate_u32 = λ bs h. ground arith;
  validate_text = λ s. refl;
  validate_nested = λ list. refl;
  validate_binary = λ p. refl;
}

-- 192.0.2.0/24
abbrev net : AfAddr
net = record {
  af = 2;
  mask_len = 24;
  addr = 192 ∷ 0 ∷ 2 ∷ 0 ∷ 0 ∷ 0 ∷ 0 ∷ 0 ∷ 0 ∷ 0 ∷ 0 ∷ 0 ∷ 0 ∷ 0 ∷ 0 ∷ 0 ∷ [];
}

net-IsPrefix : IsPrefix net
net-IsPrefix = IsPrefix.prefix4 192 0 2 0 24 (omega arith) (omega arith)

round_trip_example :
    (tc_encode_rule 7 true 1 10 (some (trap_rule net 2)) >>= try_decode_filter plain_mnl)
    ≡ ok (record { is_done = true; chain_no = 1; prio = 10; tcr = trap_rule net 2 })
round_trip_example =
    round_trip plain_mnl 7 1 10 (trap_rule net 2) (omega arith) (omega arith)
      (IsWire.traps 2 (omega arith) net-IsPrefix)

ones-ip4_mask_example : ones_loop (bytes32 (ip4_mask 24)) 0 ≡ some 24
ones-ip4_mask_example = ones-ip4_mask 24 (omega arith)

ones-ipv6_mask_example : ones_loop (tce_build_ipv6_mask 61) 0 ≡ some 61
ones-ipv6_mask_example = ones-ipv6_mask 61 (omega arith)

-- A library that leaves the tree as it is linked, and walks it.
abbrev plain_rb : RbTree Chain
plain_rb = record {
  insert_color = λ t. t;
  nodes = in_order;
  insert_color-in_order = λ t. refl;
  nodes-in_order = λ t. refl;
}

abbrev chain : ℕ → Chain
chain n = record { chain_no = n; state = present }

-- Chains 1 and 5.
abbrev two_chains : Tree Chain
two_chains = node (node leaf (chain 1) leaf) (chain 5) leaf

two_chains-IsTable : IsTable two_chains
unfolding u32cmp
two_chains-IsTable = record { sorted = ((refl, tt), (tt, tt)); fit = omega arith }

decode_chain-Stored_example :
    (t' : Tree Chain) × (decode_chain plain_mnl 7 plain_rb (chain_message 100 0 7 9) two_chains
      ≡ ok t')
    × Stored 9 present two_chains t'
decode_chain-Stored_example =
    decode_chain-Stored plain_mnl 100 0 7 9 plain_rb two_chains two_chains-IsTable (omega arith)
