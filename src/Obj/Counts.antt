-- ===== src/Obj/Counts.antt =====
-- The counts of src/obj.h: taking a reference and giving it back.
use flower_route.Base.{◌+◌, ◌-◌, ◌%◌, ◌^◌, ◌<◌, ◌≡◌, ap, false, lt→ltb, arith}
use flower_route.Ret.{ok}
use flower_route.Obj.{ObjMode, ObjCore, obj_ref, obj_unref, obj_is_reapable, is_zombie}

-- An object in use, whose counters are not about to wrap.
module _ (c : ObjCore) (hz : is_zombie c.state ≡ false) where
  pub obj_ref_lem : c.refcnt + 1 < 2 ^ 32 → obj_ref c ≡ record c { refcnt = c.refcnt + 1 }
  unfolding obj_ref
  obj_ref_lem h =
      let small : (c.refcnt + 1) % 2 ^ 32 ≡ c.refcnt + 1 = omega arith in
      rw hz (ap (λ n. record c { refcnt = n }) small)

  pub obj_unref_lem : 0 < c.refcnt → obj_unref c ≡ ok (record c { refcnt = c.refcnt - 1 })
  unfolding obj_unref
  obj_unref_lem h = rw hz (rw (lt→ltb 0 c.refcnt h))

  -- A reference that is taken and given back leaves an object in use as it was, while the counter
  -- does not wrap.
  pub obj_unref-obj_ref : c.refcnt + 1 < 2 ^ 32 → obj_unref (obj_ref c) ≡ ok c
  unfolding obj_unref
  obj_unref-obj_ref h =
      let back : c.refcnt + 1 - 1 ≡ c.refcnt = omega arith in
      rw (obj_ref_lem h) (
        rw hz (
          rw (lt→ltb 0 (c.refcnt + 1) (omega arith)) (ap (λ n. ok (record c { refcnt = n })) back)))

-- What is referenced is not reaped, in either mode.
pub referenced-obj_is_reapable :
    (mode : ObjMode) (c : ObjCore) → 0 < c.refcnt → obj_is_reapable mode c ≡ false
unfolding obj_is_reapable
referenced-obj_is_reapable ObjMode.normal c h = ground arith
referenced-obj_is_reapable ObjMode.teardown c h = ground arith
