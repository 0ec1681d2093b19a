-- ===== src/Rules.antt =====
-- src/obj_rule.c: the life of a rule object, from the wish for a rule to the rule in the kernel.
-- `obj_rule_pin_changes` is the argument `pin`, `obj_get_operating_mode()` the argument `mode`. A
-- function returns the object and, in order, the calls that it makes into other modules; a rule
-- that has been freed is `none`. A request (`tc_action_install`) runs as a step of its own, as it
-- does when the queue of src/nl_queue.c is busy. `image` is the memory of a `struct tc_rule` as
-- `memcmp` reads it, which the compiler lays out.
pub mod Handlers
pub mod Life
pub mod Requests
pub mod Weak
mod Tests
use flower_route.Base.{
  ℕ, ◌≡◌, Bool, true, false, ◌&&◌, not, Ordering, Option, none, some, List, [], ◌∷◌, ◌++◌, ltb,
  ◌==◌, is_some, if◌then◌else◌,
}
use flower_route.Ret.{Ret, ok, error, aborted, assert, ◌>>=◌, ◌>>◌}
use flower_route.TcRule.{TcRule}
use flower_route.Keys.{memcmp}
use flower_route.Obj.{
  ObjMode, ObjState, ObjKind, ObjCore, normal, present, installed, zombie, kind_no, obj_ref,
  obj_unref, obj_free, obj_is_reapable,
}

-- `enum obj_rule_state`.
pub data RuleState : Type 0 where
  new alien want queued pending ok_state dead : RuleState

abbrev pub state_no : RuleState → ℕ
state_no new = 0
state_no alien = 1
state_no want = 2
state_no queued = 3
state_no pending = 4
state_no ok_state = 5
state_no dead = 6

infix 50 ◌is◌
abbrev pub ◌is◌ : RuleState → RuleState → Bool
s is t = state_no s == state_no t

-- `enum obj_rule_type`.
pub data RuleUse : Type 0 where
  not_set found static dynamic : RuleUse

abbrev pub is_static : RuleUse → Bool
is_static static = true
is_static _ = false

-- `struct obj_rule` without its tree nodes; `target` is the address of the target.
pub record Rule : Type 0 where
  pub obj : ObjCore
  pub type : RuleUse
  pub state : RuleState
  pub chain_no : ℕ
  pub prio : ℕ
  pub have_laf : Bool
  pub have_pos : Bool
  pub target : Option ℕ
  pub have : Option TcRule
  pub wanted : Option TcRule

-- The calls into other modules and into the two trees.
pub data Call : Type 0 where
  tc_action_install : (chain_no prio : ℕ) → Option TcRule → Call
  obj_target_notify_routes : ℕ → Call
  obj_target_weak_unref : ℕ → Call
  laf_erase pos_erase : Call

-- The result of a function that keeps the object.
abbrev pub Step : Type 0
Step = Ret (Rule × List Call)

abbrev pub obj_assert_kind : Rule → Ret (Unit {0})
obj_assert_kind r = assert (kind_no r.obj.kind == kind_no ObjKind.rule)

unfoldable pub obj_rule_ref : Rule → Ret Rule
unfolding obj_ref
obj_rule_ref r = do obj_assert_kind r; ok (record r { obj = obj_ref r.obj })

-- `fr_malloc` returns zeroed memory.
abbrev pub obj_rule_alloc : Rule
obj_rule_alloc = record {
  obj = record { kind = ObjKind.rule; refcnt = 0; weak_refcnt = 0; state = present };
  type = not_set;
  state = new;
  chain_no = 0;
  prio = 0;
  have_laf = false;
  have_pos = false;
  target = none;
  have = none;
  wanted = none;
}

unfoldable pub obj_rule_queue_install : (pin : ℕ) → Rule → Step
unfolding obj_rule_ref
obj_rule_queue_install pin r = if ltb pin 2 then ok (r, []) else do
  assert (r.state is want)
  r' ← obj_rule_ref (record r { state = queued })
  ok (r', tc_action_install r.chain_no r.prio r.wanted ∷ [])

unfoldable pub obj_rule_queue_uninstall : (pin : ℕ) → Rule → Step
unfolding obj_rule_ref
obj_rule_queue_uninstall pin r = if ltb pin 3 then ok (r, []) else do
  assert (r.state is alien)
  r' ← obj_rule_ref (record r { state = queued })
  ok (r', tc_action_install r.chain_no r.prio none ∷ [])

abbrev pub is_eq : Ordering → Bool
is_eq Ordering.eq = true
is_eq _ = false

abbrev pub notify : Option ℕ → List Call
notify none = []
notify (some t) = obj_target_notify_routes t ∷ []

module _ (image : TcRule → List ℕ) where
  -- `memcmp(a, b, sizeof(struct tc_rule)) == 0`.
  abbrev pub same_image : TcRule → TcRule → Bool
  same_image a b = is_eq (memcmp (image a) (image b))

  -- The `if` chain, by `want` and `have`.
  unfoldable pub settle : (pin : ℕ) → Rule → Option TcRule → Option TcRule → Step
  unfolding obj_rule_queue_install obj_rule_queue_uninstall
  settle pin r none none = ok (if r.state is new then r else record r { state = dead }, [])
  settle pin r none (some h) = obj_rule_queue_uninstall pin (record r { state = alien })
  settle pin r (some w) none = obj_rule_queue_install pin (record r { state = want })
  settle pin r (some w) (some h) =
      if same_image w h
      then ok (record r { state = ok_state }, notify r.target)
      else obj_rule_queue_uninstall pin (record r { state = alien })

  unfoldable pub obj_rule_update_state : (pin : ℕ) → Rule → Step
  unfolding settle
  obj_rule_update_state pin r =
      if pin == 0
      then ok (r, [])
      else if r.state is queued
      then ok (r, [])
      else settle pin r r.wanted r.have

  unfoldable pub obj_rule_uninstall : (pin : ℕ) → Rule → Step
  unfolding obj_rule_update_state
  obj_rule_uninstall pin r = obj_rule_update_state pin (record r { wanted = none })
