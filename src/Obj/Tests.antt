-- ===== src/Obj/Tests.antt =====
-- The reference counts of a concrete object.
use flower_route.Obj.{ObjState, ObjKind, ObjCore}

abbrev held : ObjCore
held = record { kind = ObjKind.rule; refcnt = 2; weak_refcnt = 0; state = ObjState.installed }
