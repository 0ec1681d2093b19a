-- ===== src/Keys/Wrap.antt =====
-- Where the wrapped difference misleads.
use flower_route.Base.{ℕ, ◌+◌, ◌^◌, ◌<◌, ◌≡◌, Ordering, arith}
use flower_route.Base.Int.{sign}
use flower_route.Keys.{u32cmp}

-- Two 32-bit numbers more than 2 ^ 31 apart compare the wrong way round.
pub u32cmp_far :
    (a b : ℕ)
    → a < 2 ^ 32
    → b + 2 ^ 31 < a
    → (sign (u32cmp a b) ≡ Ordering.lt) × (sign (u32cmp b a) ≡ Ordering.gt)
unfolding u32cmp
u32cmp_far a b ha h = (ground arith, ground arith)
