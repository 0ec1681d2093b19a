-- ===== src/Obj.antt =====
-- `struct obj_core`, the operating mode and the reference counts of src/obj.h and src/obj.c.
pub mod Counts
mod Tests
use flower_route.Base.{
  ℕ, ◌+◌, ◌-◌, ◌%◌, ◌^◌, ◌≡◌, Bool, true, false, ◌&&◌, not, ltb, ◌==◌, if◌then◌else◌,
}
use flower_route.Ret.{Ret, ok, error, aborted, assert, ◌>>=◌, ◌>>◌}

-- `enum obj_operating_mode`.
pub data ObjMode : Type 0 where
  normal teardown : ObjMode

-- `enum obj_state`.
pub data ObjState : Type 0 where
  present installed zombie : ObjState

abbrev pub is_zombie : ObjState → Bool
is_zombie zombie = true
is_zombie _ = false

abbrev pub is_installed : ObjState → Bool
is_installed installed = true
is_installed _ = false

-- `enum obj_kind`, whose values are canaries.
pub data ObjKind : Type 0 where
  unknown link neigh route target rule : ObjKind

abbrev pub kind_no : ObjKind → ℕ
kind_no unknown = 0
kind_no link = 0x01234567
kind_no neigh = 0x12345678
kind_no route = 0x23456789
kind_no target = 0x3456789a
kind_no rule = 0x456789ab

-- The counts are `unsigned int`.
pub record ObjCore : Type 0 where
  pub kind : ObjKind
  pub refcnt : ℕ
  pub weak_refcnt : ℕ
  pub state : ObjState

unfoldable pub obj_ref : ObjCore → ObjCore
obj_ref c =
    if is_zombie c.state && (c.weak_refcnt == 0)
    then c
    else record c { refcnt = (c.refcnt + 1) % 2 ^ 32 }

unfoldable pub obj_unref : ObjCore → Ret ObjCore
obj_unref c =
    if is_zombie c.state && (c.refcnt == 0)
    then ok c
    else do assert (ltb 0 c.refcnt); ok (record c { refcnt = c.refcnt - 1 })

unfoldable pub obj_weak_ref : ObjCore → ObjCore
obj_weak_ref c =
    if is_zombie c.state && (c.weak_refcnt == 0)
    then c
    else record c { weak_refcnt = (c.weak_refcnt + 1) % 2 ^ 32 }

unfoldable pub obj_weak_unref : ObjCore → Ret ObjCore
obj_weak_unref c =
    if is_zombie c.state && (c.weak_refcnt == 0)
    then ok c
    else do assert (ltb 0 c.weak_refcnt); ok (record c { weak_refcnt = c.weak_refcnt - 1 })

unfoldable pub obj_is_reapable : ObjMode → ObjCore → Bool
obj_is_reapable normal c =
    (c.refcnt == 0) && (not (is_zombie c.state) && not (is_installed c.state))
obj_is_reapable teardown c = (c.refcnt == 0) && not (is_zombie c.state)

-- `_obj_free`, up to the call of `free`: what it asserts of the object.
unfoldable pub obj_free : ObjCore → Ret ObjCore
obj_free c = do
  assert (not (kind_no c.kind == kind_no unknown))
  assert (is_zombie c.state)
  assert (c.refcnt == 0)
  assert (c.weak_refcnt == 0)
  ok (record c { kind = unknown })
