-- ===== src/Neighs/Dying.antt =====
-- A target that is being reaped, and its routes (src/obj_target.c, src/obj_route.c).
use flower_route.Base.{
  ℕ, suc, ◌+◌, ◌-◌, ◌≤◌, ◌≡◌, refl, ap, ◌∙◌, sym, Bool, true, false, ◌&&◌, not, Option, none, some,
  List, [], ◌∷◌, ◌++◌, length, All, inl, inr, Bool-cases, if◌then◌else◌, arith,
}
use flower_route.Ret.{ok}
use flower_route.Obj.{
  ObjMode, normal, ObjState, ObjKind, ObjCore, present, installed, zombie, is_zombie, is_installed,
  obj_ref, obj_unref, obj_weak_unref, obj_free, obj_is_reapable,
}
use flower_route.Rules.Handlers.{is_normal}
use flower_route.TcRule.{TcRule}
use flower_route.Neighs.Objects.{Route, TargetRule, Target, Counts, Call, route_erase}
use flower_route.Neighs.Reap.{
  count_down, unref_rule, unlink_reaped, unref_target_rule, obj_route_reap, unref_core,
  obj_route_unref, unref_routes,
}

abbrev pub core : ObjKind → (refcnt weak_refcnt : ℕ) → ObjState → ObjCore
core kind refcnt weak_refcnt state = record {
  kind = kind;
  refcnt = refcnt;
  weak_refcnt = weak_refcnt;
  state = state;
}

-- A target with that many weak references, while it is reaped.
abbrev pub dying : ℕ → ObjCore
dying k = core ObjKind.target 0 k zombie

-- The weak reference of a target's rule.
abbrev pub weak_of : Option TargetRule → ℕ
weak_of none = 0
weak_of (some r) = 1

-- What a route that is reaped gives up.
abbrev pub route_calls : Route → List Call
route_calls r = unref_rule r.rule ++ (route_erase r.ptr ∷ [])

module _ (mode : ObjMode) where
  -- A route that is not reaped when its target lets it go.
  abbrev pub stays : Route → Bool
  stays r = is_normal mode && is_installed r.obj.state

  -- A route that its target alone refers to; one that is reaped has no rule of its target.
  pub record IsRoute (r : Route) : Type 0 where
    pub state : ObjState
    pub alive : is_zombie state ≡ false
    pub obj : r.obj ≡ core ObjKind.route 1 0 state
    pub bare : stays r ≡ false → r.target_rule ≡ none

  -- A target that its neighbour alone refers to, with a weak reference from each of its routes and
  -- from its rule.
  pub record IsTarget (t : Target) : Type 0 where
    pub obj : t.obj ≡ core ObjKind.target 1 (length t.routes + weak_of t.rule) present
    pub routes : All IsRoute t.routes

  abbrev pub going : List Route → ℕ
  going [] = 0
  going (r ∷ rs) = (if stays r then 0 else 1) + going rs

  -- What the routes that are reaped give up, in order.
  abbrev pub gone_calls : List Route → List Call
  gone_calls [] = []
  gone_calls (r ∷ rs) = (if stays r then [] else route_calls r) ++ gone_calls rs

unlink_reaped-dying :
    (k : ℕ)
    → unlink_reaped (dying (suc k)) (core ObjKind.route 0 0 zombie)
      ≡ ok (dying k, core ObjKind.route 0 0 zombie)
unfolding unlink_reaped obj_ref obj_unref obj_weak_unref
unlink_reaped-dying k = ground arith

pub count_down-suc : (n m : ℕ) → n ≡ suc m → count_down n ≡ ok m
count_down-suc n m e = rw e (ground arith)

-- A reference of a route's target is given up.
unref_route :
    (mode : ObjMode) (st : ObjState)
    → is_zombie st ≡ false
    → unref_core mode ObjKind.route (core ObjKind.route 1 0 st)
      ≡ ok (core ObjKind.route 0 0 st, not (is_normal mode && is_installed st))
unfolding unref_core obj_unref obj_is_reapable
unref_route normal present h = refl
unref_route normal installed h = refl
unref_route ObjMode.teardown present h = refl
unref_route ObjMode.teardown installed h = refl
unref_route mode zombie h = cc

-- The target with that many weak references, while it is reaped.
abbrev pub with_weak : ℕ → Target → Target
with_weak k t = record t { obj = dying k }

module _ (image : TcRule → List ℕ) (mode : ObjMode) (pin : ℕ) where
  obj_route_reap-dying :
      (k m : ℕ) (t : Target) (r : Route) (n : Counts) (st : ObjState)
      → n.routes ≡ suc m
      → r.target_rule ≡ none
      → obj_route_reap image mode pin
          (with_weak (suc k) t)
          (record r { obj = core ObjKind.route 0 0 st })
          n
        ≡ ok (with_weak k t, record n { routes = m }, route_calls r)
  unfolding obj_route_reap obj_free unref_target_rule
  obj_route_reap-dying k m t r n st e b =
      rw (unlink_reaped-dying k, b, count_down-suc n.routes m e) refl

  stays_lem :
      (t : Target) (r : Route) (n : Counts)
      → IsRoute mode r
      → stays mode r ≡ true
      → obj_route_unref image mode pin t r n ≡ ok (t, n, [])
  unfolding obj_route_unref
  stays_lem t r n h s =
      let kept : (is_normal mode && is_installed h.state) ≡ true =
        ap (λ c. is_normal mode && is_installed c.state) (sym h.obj) ∙ s in
      rw (h.obj, unref_route mode h.state h.alive, kept) refl

  goes_lem :
      (w k m : ℕ) (t : Target) (r : Route) (n : Counts)
      → IsRoute mode r
      → stays mode r ≡ false
      → w ≡ suc k
      → n.routes ≡ suc m
      → obj_route_unref image mode pin (with_weak w t) r n
        ≡ ok (with_weak k t, record n { routes = m }, route_calls r)
  unfolding obj_route_unref
  goes_lem w k m t r n h s hw hn =
      let kept : (is_normal mode && is_installed h.state) ≡ false =
        ap (λ c. is_normal mode && is_installed c.state) (sym h.obj) ∙ s in
      rw (h.obj, hw, unref_route mode h.state h.alive, kept)
        (obj_route_reap-dying k m t r n h.state hn (h.bare s))

  -- What the loop over the routes leaves: the counters, and the weak references of the target.
  pub record Let (rs : List Route) (w w' : ℕ) (n n' : Counts) : Type 0 where
    pub weak : w' + going mode rs ≡ w
    pub neighs : n'.neighs ≡ n.neighs
    pub targets : n'.targets ≡ n.targets
    pub routes : n'.routes + going mode rs ≡ n.routes

  pub unref_routes_lem :
      (rs : List Route) (w : ℕ) (t : Target) (n : Counts)
      → All (IsRoute mode) rs
      → length rs ≤ w
      → length rs ≤ n.routes
      → (w' : ℕ) × (n' : Counts) × (unref_routes image mode pin rs (with_weak w t) n
          ≡ ok (with_weak w' t, n', gone_calls mode rs))
        × Let rs w w' n n'
  unfolding unref_routes
  unref_routes_lem [] w t n h hw c = (
    w,
    n,
    refl,
    record { weak = omega arith; neighs = refl; targets = refl; routes = omega arith },
  )
  unref_routes_lem (r ∷ rs) w t n h hw c = elim (Bool-cases (stays mode r)) [
    | inl s ↦
        let (w', n', steps, left) = unref_routes_lem rs w t n h.1 (omega arith) (omega arith) in
        (
          w',
          n',
          rw (stays_lem (with_weak w t) r n h.0 s, s) (rw steps refl),
          record {
            weak = rw s (omega (arith, left.weak));
            neighs = left.neighs;
            targets = left.targets;
            routes = rw s (omega (arith, left.routes));
          },
        )
    | inr s ↦
        let n1 = record n { routes = n.routes - 1 } in
        let (w', n', steps, left) =
          unref_routes_lem rs (w - 1) t n1 h.1 (omega arith) (omega arith) in
        (
          w',
          n',
          rw (goes_lem w (w - 1) (n.routes - 1) t r n h.0 s (omega arith) (omega arith), s)
              (rw steps refl),
          record {
            weak = rw s (omega (arith, left.weak));
            neighs = left.neighs;
            targets = left.targets;
            routes = rw s (omega (arith, left.routes));
          },
        )
  ]

  pub going-le-length : (rs : List Route) → going mode rs ≤ length rs
  going-le-length [] = omega arith
  going-le-length (r ∷ rs) = elim (Bool-cases (stays mode r)) [
    | inl s ↦ rw s (omega (arith, going-le-length rs))
    | inr s ↦ rw s (omega (arith, going-le-length rs))
  ]
