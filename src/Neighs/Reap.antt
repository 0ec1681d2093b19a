-- ===== src/Neighs/Reap.antt =====
-- Giving up routes, targets and neighbours: `obj_route_reap`, `obj_target_unlink_route` of a route that
-- is being reaped, `obj_target_reap` and the loop over the targets in `obj_neigh_reap`.
use flower_route.Base.{
  ℕ, map, ◌-◌, Bool, false, Option, none, some, List, [], ◌∷◌, ◌++◌, ltb, ◌==◌, if◌then◌else◌,
}
use flower_route.Ret.{Ret, ok, aborted, assert, ◌>>=◌, ◌>>◌}
use flower_route.Obj.{
  ObjMode, ObjKind, ObjCore, zombie, kind_no, obj_ref, obj_unref, obj_weak_unref, obj_free,
  obj_is_reapable,
}
use flower_route.TcRule.{TcRule}
use flower_route.Rules
use flower_route.Rules.Handlers
use flower_route.Neighs.Objects.{
  Route, TargetRule, Target, Counts, Call, obj_rule_unref, rule_call, route_erase,
}

abbrev pub obj_assert_is : ObjKind → ObjCore → Ret (Unit {0})
obj_assert_is kind c = assert (kind_no c.kind == kind_no kind)

-- `AN(cnt--)`
abbrev pub count_down : ℕ → Ret ℕ
count_down n = do assert (ltb 0 n); ok (n - 1)

abbrev pub unref_rule : Option ℕ → List Call
unref_rule none = []
unref_rule (some rule) = obj_rule_unref rule ∷ []

-- `obj_generic_unref` of a zombie, which `obj_is_reapable` never lets be reaped again.
unfoldable pub unref_zombie : ObjKind → ObjCore → Ret ObjCore
unref_zombie kind c = do obj_assert_is kind c; obj_unref c

-- `obj_target_unlink_route` where both are being reaped, by the counts of the target and of the
-- route, which is in the list once.
unfoldable pub unlink_reaped : ObjCore → ObjCore → Ret (ObjCore × ObjCore)
unfolding unref_zombie
unlink_reaped t r = do
  obj_assert_is ObjKind.target t
  obj_assert_is ObjKind.route r
  t' ← obj_weak_unref (obj_ref t)
  r' ← unref_zombie ObjKind.route (obj_ref r)
  r'' ← unref_zombie ObjKind.route r'
  t'' ← unref_zombie ObjKind.target t'
  ok (t'', r'')

-- The weak references on the target that its rule gives back.
unfoldable pub give_back : List Rules.Call → ObjCore → Ret ObjCore
give_back [] t = ok t
give_back (Rules.Call.obj_target_weak_unref p ∷ calls) t = do
  obj_assert_is ObjKind.target t
  t' ← obj_weak_unref t
  give_back calls t'
give_back (_ ∷ calls) t = give_back calls t

abbrev pub is_rule_of : ℕ → Option TargetRule → Bool
is_rule_of p none = false
is_rule_of p (some r) = r.ptr == p

module _ (mode : ObjMode) where
  -- `obj_generic_unref` up to the reaping, which is due where the flag is set.
  unfoldable pub unref_core : ObjKind → ObjCore → Ret (ObjCore × Bool)
  unref_core kind c = do obj_assert_is kind c; c' ← obj_unref c; ok (c', obj_is_reapable mode c')

module _ (image : TcRule → List ℕ) (mode : ObjMode) (pin : ℕ) where
  -- `obj_rule_unref` of a target's rule; one that has been freed must not be used.
  unfoldable pub unref_object : TargetRule → Option Rules.Rule → Target → Ret (Target × List Call)
  unref_object r none t = aborted
  unref_object r (some rule) t = do
    (rule', calls) ← Handlers.obj_rule_unref image mode pin rule
    obj ← give_back calls t.obj
    ok (record t { obj = obj; rule = some (record r { rule = rule' }) }, map rule_call calls)

  -- The same if the target has a rule.
  unfoldable pub unref_rule_of : Option TargetRule → Target → Ret (Target × List Call)
  unfolding unref_object
  unref_rule_of none t = ok (t, [])
  unref_rule_of (some r) t = unref_object r r.rule t

  -- That of a route's `target_rule`, which may be the rule of its target.
  unfoldable pub unref_target_rule : Option ℕ → Target → Ret (Target × List Call)
  unfolding unref_rule_of
  unref_target_rule none t = ok (t, [])
  unref_target_rule (some p) t =
      if is_rule_of p t.rule then unref_rule_of t.rule t else ok (t, obj_rule_unref p ∷ [])

  -- `obj_route_reap` of a route of a target that is being reaped: the target afterwards, and the
  -- calls.
  unfoldable pub obj_route_reap : Target → Route → Counts → Ret (Target × Counts × List Call)
  obj_route_reap t r n = do
    assert (r.obj.refcnt == 0)
    (obj, core) ← unlink_reaped t.obj (record r.obj { state = zombie })
    (t', calls) ← unref_target_rule r.target_rule (record t { obj = obj })
    _ ← obj_free core
    routes ← count_down n.routes
    ok (t', record n { routes = routes }, unref_rule r.rule ++ (calls ++ route_erase r.ptr ∷ []))

  -- `obj_route_unref` of a route in the list of a target that is being reaped.
  unfoldable pub obj_route_unref : Target → Route → Counts → Ret (Target × Counts × List Call)
  unfolding unref_core
  obj_route_unref t r n = do
    (core, due) ← unref_core mode ObjKind.route r.obj
    if due then obj_route_reap t (record r { obj = core }) n else ok (t, n, [])

  -- The loop of `obj_target_reap` over the routes.
  unfoldable pub unref_routes : List Route → Target → Counts → Ret (Target × Counts × List Call)
  unref_routes [] t n = ok (t, n, [])
  unref_routes (r ∷ rs) t n = do
    (t', n', calls) ← obj_route_unref t r n
    (t'', n'', later) ← unref_routes rs t' n'
    ok (t'', n'', calls ++ later)

  -- `obj_target_reap`: the counts of the neighbour afterwards; the target is freed.
  unfoldable pub obj_target_reap : ObjCore → Target → Counts → Ret (ObjCore × Counts × List Call)
  obj_target_reap neigh t n = do
    assert (t.obj.refcnt == 0)
    obj_assert_is ObjKind.neigh neigh
    neigh' ← obj_weak_unref neigh
    (t', n', calls) ← unref_routes t.routes (record t { obj = record t.obj { state = zombie } }) n
    (t'', later) ← unref_rule_of t'.rule t'
    assert (t''.obj.weak_refcnt == 0)
    _ ← obj_free t''.obj
    targets ← count_down n'.targets
    ok (neigh', record n' { targets = targets }, calls ++ later)

  -- `obj_target_unref` in `obj_neigh_reap`.
  unfoldable pub obj_target_unref : ObjCore → Target → Counts → Ret (ObjCore × Counts × List Call)
  unfolding unref_core
  obj_target_unref neigh t n = do
    (core, due) ← unref_core mode ObjKind.target t.obj
    if due then obj_target_reap neigh (record t { obj = core }) n else ok (neigh, n, [])

  -- The loop of `obj_neigh_reap` over the targets.
  unfoldable pub unref_targets : List Target → ObjCore → Counts → Ret (ObjCore × Counts × List Call)
  unref_targets [] neigh n = ok (neigh, n, [])
  unref_targets (t ∷ ts) neigh n = do
    (neigh', n', calls) ← obj_target_unref neigh t n
    (neigh'', n'', later) ← unref_targets ts neigh' n'
    ok (neigh'', n'', calls ++ later)
