-- ===== src/Keys.antt =====
-- The comparisons that order the tables: `u32cmp` and `u16cmp` (src/obj_rule.c, src/nl_filter.c),
-- the difference of two interface indexes (src/obj_link.c), and `memcmp`.
pub mod Orders
pub mod Wrap
mod Tests
use flower_route.Base.{ℕ, ◌+◌, ◌-◌, ◌%◌, ◌^◌, Ordering, then_by, List, [], ◌∷◌}
use Prim.Native.Nat.{compare}
use flower_route.Base.Int.{ℤ, sub_ℕ, signed32, sign}

-- `return ((int) a) - b;` with `uint32_t b`: an unsigned difference, read as an int.
unfoldable pub u32cmp : ℕ → ℕ → ℤ
u32cmp a b = signed32 ((a + 2 ^ 32 - b) % 2 ^ 32)

-- The same with `uint16_t b`: both sides are promoted to int, and nothing wraps.
unfoldable pub u16cmp : ℕ → ℕ → ℤ
u16cmp a b = sub_ℕ a b

-- `ifindex - this->ifindex`, for indexes from 0 to 2 ^ 31 - 1.
unfoldable pub ifindex_cmp : ℕ → ℕ → ℤ
ifindex_cmp a b = sub_ℕ a b

-- A rule's place in the positional tree.
pub record Position : Type 0 where
  pub chain_no : ℕ
  pub prio : ℕ

-- `ret = u32cmp(..); if (ret == 0) ret = u16cmp(..);`
unfoldable pub position_cmp : Position → Position → Ordering
unfolding u32cmp u16cmp
position_cmp a b = then_by (sign (u32cmp a.chain_no b.chain_no)) (sign (u16cmp a.prio b.prio))

-- The sign of `memcmp` over two objects of one size.
unfoldable pub memcmp : List ℕ → List ℕ → Ordering
memcmp [] _ = Ordering.eq
memcmp (x ∷ xs) [] = Ordering.eq
memcmp (x ∷ xs) (y ∷ ys) = elim (compare x y) [
  | Ordering.lt ↦ Ordering.lt
  | Ordering.gt ↦ Ordering.gt
  | Ordering.eq ↦ memcmp xs ys
]
