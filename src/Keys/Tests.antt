-- ===== src/Keys/Tests.antt =====
-- The comparisons at concrete keys.
use flower_route.Base.{◌≡◌, Ordering, arith}
use flower_route.Base.Int.{sign}
use flower_route.Keys.{u32cmp}
use flower_route.Keys.Wrap.{u32cmp_far}

u32cmp_far_example :
    (sign (u32cmp 0xffffffff 5) ≡ Ordering.lt) × (sign (u32cmp 5 0xffffffff) ≡ Ordering.gt)
u32cmp_far_example = u32cmp_far 0xffffffff 5 (omega arith) (omega arith)
