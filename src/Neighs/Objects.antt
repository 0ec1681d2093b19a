-- ===== src/Neighs/Objects.antt =====
-- The objects of src/obj_neigh.c, src/obj_target.c and src/obj_route.c (src/obj.h). A target with one
-- next hop belongs to the neighbour that this is, and a route to the target that it points to, so
-- that each object holds what belongs to it; `ptr` is its address in memory.
use flower_route.Base.{ℕ, Bool, Option, List}
use flower_route.AfAddr.{AfAddr}
use flower_route.Rules
use flower_route.Rules.{Rule}
use flower_route.Obj.{ObjKind, ObjCore, present}

-- A rule by its address, and the object, unless it has been freed.
pub record TargetRule : Type 0 where
  pub ptr : ℕ
  pub rule : Option Rule

-- `struct obj_route` in the list of its target; the rules are addresses.
pub record Route : Type 0 where
  pub ptr : ℕ
  pub obj : ObjCore
  pub rule : Option ℕ
  pub target_rule : Option ℕ

-- `struct obj_target` with one next hop.
pub record Target : Type 0 where
  pub ptr : ℕ
  pub obj : ObjCore
  pub routes : List Route
  pub rule : Option TargetRule

-- `struct obj_neigh`; `has_link` says whether `link` is set.
pub record Neigh : Type 0 where
  pub obj : ObjCore
  pub has_link : Bool
  pub addr : AfAddr
  pub lladdr : List ℕ
  pub targets : List Target

-- `obj_neigh_cnt`, `obj_target_cnt` and `obj_route_cnt`.
pub record Counts : Type 0 where
  pub neighs : ℕ
  pub targets : ℕ
  pub routes : ℕ

-- The notification of a target, what is called in src/obj_rule.c, what the rule of a target calls
-- there, and the removal from the tree of routes.
pub data Call : Type 0 where
  obj_target_neigh_update : (target : ℕ) → Call
  obj_rule_unref : (rule : ℕ) → Call
  rule_call : Rules.Call → Call
  route_erase : (route : ℕ) → Call

-- Zeroed memory of a kind.
abbrev pub fresh_core : ObjKind → ObjCore
fresh_core kind = record { kind = kind; refcnt = 0; weak_refcnt = 0; state = present }
