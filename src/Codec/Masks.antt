-- ===== src/Codec/Masks.antt =====
-- `count_ones` against the netmasks that the encoder makes.
use flower_route.Base.{
  ℕ, zero, suc, ◌≤◌, ◌≡◌, refl, Bool, true, false, Option, none, some, ◌&&◌, ◌==◌, arith,
  Bool-cases, inl, inr,
}
use flower_route.Base.Bytes.{bytes32, htonl}
use flower_route.Encode.Prefix.{ip4_mask, tce_build_ipv6_mask}
use flower_route.Decode.Flower.{ones_loop}

-- A test of the numbers from 0 to n, and what it says of each.
every : (ℕ → Bool) → ℕ → Bool
every test zero = test zero
every test (suc n) = test (suc n) && every test n

every-le : (test : ℕ → Bool) (n k : ℕ) → k ≤ n → every test n ≡ true → test k ≡ true
unfolding every
every-le test zero k le h = let first : k ≡ 0 = omega arith in rw first h
every-le test (suc n) k le h = elim (Bool-cases (k == suc n)) [
  | inl e ↦ let last : k ≡ suc n = ground arith in rw last (ground arith)
  | inr e ↦ every-le test n k (ground arith) (ground arith)
]

abbrev is_length : Option ℕ → ℕ → Bool
is_length none n = false
is_length (some k) n = k == n

is_length_eq : (o : Option ℕ) (n : ℕ) → is_length o n ≡ true → o ≡ some n
is_length_eq none n h = cc
is_length_eq (some k) n h = ground arith

abbrev ip4_round : ℕ → Bool
ip4_round n = is_length (ones_loop (bytes32 (ip4_mask n)) 0) n

abbrev ip6_round : ℕ → Bool
ip6_round n = is_length (ones_loop (tce_build_ipv6_mask n) 0) n

ip4_table : every ip4_round 32 ≡ true
unfolding every ip4_mask ones_loop htonl
ip4_table = refl

ip6_table : every ip6_round 128 ≡ true
unfolding every tce_build_ipv6_mask ones_loop
ip6_table = refl

-- The decoder reads back the length of every IPv4 netmask that the encoder makes, up to 32.
pub ones-ip4_mask : (n : ℕ) → n ≤ 32 → ones_loop (bytes32 (ip4_mask n)) 0 ≡ some n
ones-ip4_mask n h = is_length_eq _ n (every-le ip4_round 32 n h ip4_table)

-- The decoder reads back the length of every IPv6 netmask that the encoder makes, up to 128.
pub ones-ipv6_mask : (n : ℕ) → n ≤ 128 → ones_loop (tce_build_ipv6_mask n) 0 ≡ some n
ones-ipv6_mask n h = is_length_eq _ n (every-le ip6_round 128 n h ip6_table)
