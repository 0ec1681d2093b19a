-- ===== src/Base/Bits.antt =====
-- The bit operations on words whose set bits do not meet. The native operations stand for a
-- recursion on the binary digits of the first word, of which there are at most as many as the first
-- argument of `digits` says.
use Prim.Native.Nat.{
  ℕ, zero, suc, ◌+◌, ◌*◌, ◌/◌, ◌%◌, ◌≤◌, ◌<◌, min, max, bit_and, bit_or, bit_xor, digits,
  bit_and-bitwise, bit_or-bitwise, bit_xor-bitwise,
}
use mathlib.Core.Path.{◌≡◌, refl, ap}
use native.Mathlib.Omega.{arith}

none_left : (n a : ℕ) → digits (λ _. 0) min n a 0 ≡ 0
none_left zero zero = refl
none_left zero (suc a) = refl
none_left (suc n) zero = refl
none_left (suc n) (suc a) = omega (arith, none_left n (suc a / 2))

pub bit_and-zero : (a : ℕ) → bit_and a 0 ≡ 0
bit_and-zero a = omega (arith, bit_and-bitwise a 0, none_left a a)

pub zero-bit_xor : (v : ℕ) → bit_xor 0 v ≡ v
zero-bit_xor v = bit_xor-bitwise 0 v

abbrev union : ℕ → ℕ → ℕ → ℕ
union n a b = digits (λ rest. rest) max n a b

union_empty : (n b : ℕ) → union n 0 b ≡ b
union_empty zero b = refl
union_empty (suc n) b = refl

-- With enough digits, nothing is added.
union-zero : (n a : ℕ) → a ≤ n → union n a 0 ≡ a
union-zero n zero h = union_empty n 0
union-zero zero (suc a) h = absurd (omega arith)
union-zero (suc n) (suc a) h = omega (arith, union-zero n (suc a / 2))

-- An even word leaves the other word's lowest digit as it is.
union-even : (n y b : ℕ) → union (suc n) (y * 2) b ≡ union n y (b / 2) * 2 + b % 2
union-even n zero b = omega (arith, union_empty n (b / 2))
union-even n (suc y) b =
    let twice : suc y * 2 ≡ suc (suc (y * 2)) = omega arith in
    let half : suc (suc (y * 2)) / 2 ≡ suc y = omega arith in
    rw twice (omega (arith, ap (λ q. union n q (b / 2)) half))

-- `double_up k a` is a * 2 ^ k.
abbrev pub double_up : ℕ → ℕ → ℕ
double_up zero a = a
double_up (suc k) a = double_up k a * 2

union-disjoint :
    (k n a b : ℕ)
    → double_up k a ≤ n
    → b < double_up k 1
    → union n (double_up k a) b ≡ double_up k a + b
union-disjoint zero n a b h hb =
    let empty : b ≡ 0 = omega arith in rw empty (omega (arith, union-zero n a h))
union-disjoint (suc k) zero a b h hb =
    let empty : double_up (suc k) a ≡ 0 = omega arith in
    omega (arith, ap (λ q. union 0 q b) empty, union_empty 0 b)
union-disjoint (suc k) (suc n) a b h hb = omega (
  arith,
  union-even n (double_up k a) b,
  union-disjoint k n a (b / 2) (omega arith) (omega arith),
)

-- Flags from bit k on and a value below it do not meet.
pub bit_or-disjoint : (k a b : ℕ) → b < double_up k 1 → bit_or (double_up k a) b ≡ double_up k a + b
bit_or-disjoint k a b h =
    omega (
      arith,
      bit_or-bitwise (double_up k a) b,
      union-disjoint k (double_up k a) a b (omega arith) h,
    )
