-- ===== src/Base/Bytes.antt =====
-- Numbers as they lie in memory. The host is little-endian; network order is big-endian.
use Prim.Native.Nat.{ℕ, ◌+◌, ◌*◌, ◌/◌, ◌%◌, ◌^◌, ◌<◌}
use mathlib.Core.Path.{◌≡◌}
use mathlib.Core.List.{List, [], ◌∷◌}
use native.Mathlib.Omega.{arith}

-- The bytes of a `uint16_t`, of a `uint32_t`, and back.
abbrev pub bytes16 : ℕ → List ℕ
bytes16 v = v % 256 ∷ v / 256 % 256 ∷ []

abbrev pub bytes32 : ℕ → List ℕ
bytes32 v = v % 256 ∷ v / 256 % 256 ∷ v / 65536 % 256 ∷ v / 16777216 % 256 ∷ []

-- A load of 2 or 4 bytes; the rest of the object is not looked at.
unfoldable pub load16 : List ℕ → ℕ
load16 (a ∷ b ∷ _) = a + b * 256
load16 _ = 0

unfoldable pub load32 : List ℕ → ℕ
load32 (a ∷ b ∷ c ∷ d ∷ _) = a + b * 256 + c * 65536 + d * 16777216
load32 _ = 0

-- `htons` and `htonl`, which are their own inverses.
unfoldable pub htons : ℕ → ℕ
htons v = v / 256 % 256 + v % 256 * 256

unfoldable pub htonl : ℕ → ℕ
htonl v = v / 16777216 % 256 + v / 65536 % 256 * 256 + v / 256 % 256 * 65536 + v % 256 * 16777216

pub load16-bytes16 : (v : ℕ) → v < 2 ^ 16 → load16 (bytes16 v) ≡ v
unfolding load16
load16-bytes16 v h = omega arith

pub load32-bytes32 : (v : ℕ) → v < 2 ^ 32 → load32 (bytes32 v) ≡ v
unfolding load32
load32-bytes32 v h = omega arith

pub htons-htons : (v : ℕ) → v < 2 ^ 16 → htons (htons v) ≡ v
unfolding htons
htons-htons v h = omega arith
