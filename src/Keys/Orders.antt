-- ===== src/Keys/Orders.antt =====
-- On which keys the comparisons are orders, as the search trees need it.
use flower_route.Base.{ℕ, ◌^◌, ◌<◌, ◌≡◌, refl, Ordering, then_by, List, [], ◌∷◌, arith, length}
use Prim.Native.Nat.{compare}
use mathlib.Core.Path.{ap₂}
use flower_route.Base.Int.{sign}
use flower_route.Keys.{u32cmp, u16cmp, ifindex_cmp, Position, position_cmp, memcmp}
use flower_route.Search.Order.{IsOrder}

-- Below 2 ^ 31 the wrapped difference has the sign of the true one.
pub u32cmp_lem : (a b : ℕ) → a < 2 ^ 31 → b < 2 ^ 31 → sign (u32cmp a b) ≡ compare a b
unfolding u32cmp
u32cmp_lem a b ha hb = ground arith

pub u16cmp_lem : (a b : ℕ) → sign (u16cmp a b) ≡ compare a b
unfolding u16cmp
u16cmp_lem a b = ground arith

pub ifindex_cmp_lem : (a b : ℕ) → sign (ifindex_cmp a b) ≡ compare a b
unfolding ifindex_cmp
ifindex_cmp_lem a b = ground arith

abbrev pub Below31 : ℕ → Type 0
Below31 a = a < 2 ^ 31

pub u32cmp-IsOrder : IsOrder Below31 (λ a b. sign (u32cmp a b))
u32cmp-IsOrder = record {
  eq_of = λ a b fa fb e. ground (arith, u32cmp_lem a b fa fb);
  self = λ a fa. ground (arith, u32cmp_lem a a fa fa);
  lt_gt = λ a b fa fb e. ground (arith, u32cmp_lem a b fa fb, u32cmp_lem b a fb fa);
  gt_lt = λ a b fa fb e. ground (arith, u32cmp_lem a b fa fb, u32cmp_lem b a fb fa);
  lt_trans = λ a b c fa fb fc d e.
      ground (arith, u32cmp_lem a b fa fb, u32cmp_lem b c fb fc, u32cmp_lem a c fa fc);
}

pub ifindex_cmp-IsOrder : IsOrder (λ _. Unit {0}) (λ a b. sign (ifindex_cmp a b))
ifindex_cmp-IsOrder = record {
  eq_of = λ a b fa fb e. ground (arith, ifindex_cmp_lem a b);
  self = λ a fa. ground (arith, ifindex_cmp_lem a a);
  lt_gt = λ a b fa fb e. ground (arith, ifindex_cmp_lem a b, ifindex_cmp_lem b a);
  gt_lt = λ a b fa fb e. ground (arith, ifindex_cmp_lem a b, ifindex_cmp_lem b a);
  lt_trans = λ a b c fa fb fc d e.
      ground (arith, ifindex_cmp_lem a b, ifindex_cmp_lem b c, ifindex_cmp_lem a c);
}

abbrev pub ChainBelow31 : Position → Type 0
ChainBelow31 p = p.chain_no < 2 ^ 31

module _ (a b : Position) (fa : ChainBelow31 a) (fb : ChainBelow31 b) where
  pub position_cmp_lem :
      position_cmp a b ≡ then_by (compare a.chain_no b.chain_no) (compare a.prio b.prio)
  unfolding position_cmp
  position_cmp_lem = ap₂ then_by (u32cmp_lem a.chain_no b.chain_no fa fb) (u16cmp_lem a.prio b.prio)

-- On chain numbers below 2 ^ 31 the comparison of places is a strict total order.
pub position_cmp-IsOrder : IsOrder ChainBelow31 position_cmp
position_cmp-IsOrder = record {
  eq_of = λ a b fa fb e. ground (arith, position_cmp_lem a b fa fb);
  self = λ a fa. ground (arith, position_cmp_lem a a fa fa);
  lt_gt = λ a b fa fb e. ground (arith, position_cmp_lem a b fa fb, position_cmp_lem b a fb fa);
  gt_lt = λ a b fa fb e. ground (arith, position_cmp_lem a b fa fb, position_cmp_lem b a fb fa);
  lt_trans = λ a b c fa fb fc d e.
      ground
        (arith, position_cmp_lem a b fa fb, position_cmp_lem b c fb fc, position_cmp_lem a c fa fc);
}

memcmp_self : (xs : List ℕ) → memcmp xs xs ≡ Ordering.eq
unfolding memcmp
memcmp_self [] = refl
memcmp_self (x ∷ xs) = ground (arith, memcmp_self xs)

memcmp_eq : (xs ys : List ℕ) → length xs ≡ length ys → memcmp xs ys ≡ Ordering.eq → xs ≡ ys
unfolding memcmp
memcmp_eq [] [] h e = refl
memcmp_eq [] (y ∷ ys) h e = absurd (omega arith)
memcmp_eq (x ∷ xs) [] h e = absurd (omega arith)
memcmp_eq (x ∷ xs) (y ∷ ys) h e = ground (arith, memcmp_eq xs ys)

memcmp_lt_gt : (xs ys : List ℕ) → memcmp xs ys ≡ Ordering.lt → memcmp ys xs ≡ Ordering.gt
unfolding memcmp
memcmp_lt_gt [] ys e = cc
memcmp_lt_gt (x ∷ xs) [] e = cc
memcmp_lt_gt (x ∷ xs) (y ∷ ys) e = ground (arith, memcmp_lt_gt xs ys)

memcmp_gt_lt : (xs ys : List ℕ) → memcmp xs ys ≡ Ordering.gt → memcmp ys xs ≡ Ordering.lt
unfolding memcmp
memcmp_gt_lt [] ys e = cc
memcmp_gt_lt (x ∷ xs) [] e = cc
memcmp_gt_lt (x ∷ xs) (y ∷ ys) e = ground (arith, memcmp_gt_lt xs ys)

memcmp_trans :
    (xs ys zs : List ℕ)
    → memcmp xs ys ≡ Ordering.lt
    → memcmp ys zs ≡ Ordering.lt
    → memcmp xs zs ≡ Ordering.lt
unfolding memcmp
memcmp_trans [] ys zs d e = cc
memcmp_trans (x ∷ xs) [] zs d e = cc
memcmp_trans (x ∷ xs) (y ∷ ys) [] d e = cc
memcmp_trans (x ∷ xs) (y ∷ ys) (z ∷ zs) d e = ground (arith, memcmp_trans xs ys zs)

-- On objects of one size n, `memcmp` is a strict total order.
pub memcmp-IsOrder : (n : ℕ) → IsOrder (λ xs. length xs ≡ n) memcmp
memcmp-IsOrder n = record {
  eq_of = λ a b fa fb e. memcmp_eq a b (omega arith) e;
  self = λ a fa. memcmp_self a;
  lt_gt = λ a b fa fb e. memcmp_lt_gt a b e;
  gt_lt = λ a b fa fb e. memcmp_gt_lt a b e;
  lt_trans = λ a b c fa fb fc d e. memcmp_trans a b c d e;
}
