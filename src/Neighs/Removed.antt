-- ===== src/Neighs/Removed.antt =====
-- src/obj_neigh.c: the removal of a neighbour, with the targets and the routes that it takes along.
use flower_route.Base.{
  ℕ, suc, ◌+◌, ◌-◌, ◌≤◌, ◌<◌, ◌≡◌, ◌⊎◌, refl, ap, ◌∙◌, true, Option, none, some, List, [], ◌∷◌,
  ◌++◌, length, All, arith,
}
use mathlib.Core.List.{append-nil}
use flower_route.Ret.{ok}
use flower_route.Search.{Tree, RbTree, lookup}
use flower_route.Search.Erase.{Erases, Erased, erase-Erased}
use flower_route.Keys.{memcmp}
use flower_route.Keys.Orders.{memcmp-IsOrder}
use flower_route.Obj.{
  ObjMode, normal, ObjState, ObjKind, ObjCore, present, installed, zombie, obj_unref,
  obj_weak_unref, obj_free, obj_is_reapable,
}
use flower_route.Neighs.Holds.{IsKey, IsTable}
use flower_route.Neighs.Objects.{TargetRule, Target, Neigh, Counts, Call}
use flower_route.Neighs.Reap.{
  unref_rule_of, unref_core, obj_target_reap, obj_target_unref, unref_targets,
}
use flower_route.Neighs.Dying.{
  with_weak, weak_of, core, IsTarget, going, gone_calls, count_down-suc, unref_routes_lem,
}
use flower_route.Neighs.{TcRule, obj_link_weak_unref, Fdb, neigh_key, obj_neigh_delete}

-- A neighbour that is being reaped, with a weak reference from each of some targets.
abbrev pub dying_neigh : ℕ → ObjCore
dying_neigh k = core ObjKind.neigh 0 k zombie

-- The reference of the neighbour on a target is the last one.
unref_target :
    (mode : ObjMode) (w : ℕ)
    → unref_core mode ObjKind.target (core ObjKind.target 1 w present)
      ≡ ok (core ObjKind.target 0 w present, true)
unfolding unref_core obj_unref obj_is_reapable
unref_target normal w = refl
unref_target ObjMode.teardown w = refl

pub weak_unref-neigh : (k : ℕ) → obj_weak_unref (dying_neigh (suc k)) ≡ ok (dying_neigh k)
unfolding obj_weak_unref
weak_unref-neigh k = ground arith

module _ (mode : ObjMode) where
  -- A target without a rule, all of whose routes are reaped with it.
  abbrev pub Goes : Target → Type 0
  Goes t = (going mode t.routes ≡ length t.routes) × (t.rule ≡ none)

  -- The routes of all targets, and what they give up.
  abbrev pub all_routes : List Target → ℕ
  all_routes [] = 0
  all_routes (t ∷ ts) = length t.routes + all_routes ts

  abbrev pub all_calls : List Target → List Call
  all_calls [] = []
  all_calls (t ∷ ts) = gone_calls mode t.routes ++ all_calls ts

  -- A target with a route that is not reaped with it.
  abbrev pub HasStaying : Target → Type 0
  HasStaying t = going mode t.routes < length t.routes

  -- The targets up to one that has a route which stays; those before it go.
  abbrev pub SomeStaying : List Target → Type 0
  SomeStaying [] = ⊥
  SomeStaying (t ∷ ts) = HasStaying t ⊎ (Goes t × SomeStaying ts)

module _ (image : TcRule → List ℕ) (mode : ObjMode) (pin : ℕ) where
  no_rule :
      (r : Option TargetRule) (t : Target)
      → r ≡ none
      → unref_rule_of image mode pin r t ≡ ok (t, [])
  unfolding unref_rule_of
  no_rule none t e = refl
  no_rule (some r) t e = cc

  pub unref_due :
      (neigh : ObjCore) (t : Target) (n : Counts)
      → IsTarget mode t
      → obj_target_unref image mode pin neigh t n
        ≡ obj_target_reap image mode pin neigh
            (record t { obj = core ObjKind.target 0 (length t.routes + weak_of t.rule) present })
            n
  unfolding obj_target_unref
  unref_due neigh t n it = rw (it.obj, unref_target mode (length t.routes + weak_of t.rule)) refl

  -- A target that belongs to a neighbour that is being reaped.
  pub obj_target_unref-Goes :
      (k m : ℕ) (t : Target) (n : Counts)
      → IsTarget mode t
      → Goes mode t
      → n.targets ≡ suc m
      → length t.routes ≤ n.routes
      → (n' : Counts) × (obj_target_unref image mode pin (dying_neigh (suc k)) t n
          ≡ ok (dying_neigh k, n', gone_calls mode t.routes))
        × (n'.neighs ≡ n.neighs)
        × (n'.targets ≡ m)
        × (n'.routes + length t.routes ≡ n.routes)
  unfolding obj_target_reap obj_free
  obj_target_unref-Goes k m t n it all hm hr =
      let w = length t.routes + weak_of t.rule in
      let (w', n', steps, left) =
        unref_routes_lem image mode pin t.routes w t n it.routes (omega arith) hr in
      let bare : weak_of t.rule ≡ 0 = ap weak_of all.1 in
      let none_left : w' ≡ 0 = omega (arith, left.weak, all.0, bare) in
      let calls_end = append-nil (gone_calls mode t.routes) in
      (
        record n' { targets = m },
        unref_due (dying_neigh (suc k)) t n it
            ∙ rw (weak_unref-neigh k, steps, no_rule t.rule (with_weak w' t) all.1, none_left)
                (rw (count_down-suc n'.targets m (left.targets ∙ hm))
                  (ap (λ cs. ok (dying_neigh k, record n' { targets = m }, cs)) calls_end)),
        left.neighs,
        refl,
        omega (arith, left.routes, all.0),
      )

  unref_targets-Goes :
      (ts : List Target) (n : Counts)
      → All (IsTarget mode) ts
      → All (Goes mode) ts
      → length ts ≤ n.targets
      → all_routes mode ts ≤ n.routes
      → (n' : Counts) × (unref_targets image mode pin ts (dying_neigh (length ts)) n
          ≡ ok (dying_neigh 0, n', all_calls mode ts))
        × (n'.neighs ≡ n.neighs)
        × (n'.targets + length ts ≡ n.targets)
        × (n'.routes + all_routes mode ts ≡ n.routes)
  unfolding unref_targets
  unref_targets-Goes [] n it all ht hr = (n, refl, refl, omega arith, omega arith)
  unref_targets-Goes (t ∷ ts) n it all ht hr =
      let (n1, step, n1n, n1t, n1r) =
        obj_target_unref-Goes (length ts) (n.targets - 1) t n it.0 all.0 (omega arith)
          (omega arith) in
      let (n', steps, nn, nt, nr) =
        unref_targets-Goes ts n1 it.1 all.1 (omega arith) (omega arith) in
      (n', rw (step) (rw steps refl), nn ∙ n1n, omega arith, omega arith)

-- A neighbour that nobody but its targets refers to, in the table of its link, with counters that
-- count at least what belongs to it.
pub record IsKept (mode : ObjMode) (n : Neigh) (s : Fdb) : Type 0 where
  pub state : ObjState
  pub obj : n.obj ≡ core ObjKind.neigh 0 (length n.targets) state
  pub linked : n.has_link ≡ true
  pub targets : All (IsTarget mode) n.targets
  pub link_refs : ℕ
  pub link_weak : ℕ
  pub link_state : ObjState
  pub link : s.link ≡ core ObjKind.link link_refs (suc link_weak) link_state
  pub neigh_cnt : 1 ≤ s.counts.neighs
  pub target_cnt : length n.targets ≤ s.counts.targets
  pub route_cnt : all_routes mode n.targets ≤ s.counts.routes

-- What the removal leaves: the neighbour is out of the table and every other address finds what it
-- found, its link has a weak reference less, and the counters count neither it nor its targets and
-- routes.
pub record Gone {mode : ObjMode} {n : Neigh} {s : Fdb} (h : IsKept mode n s) (s' : Fdb)
    : Type 0 where
  pub neighs : Erased neigh_key (memcmp-IsOrder 20) n s.neighs s'.neighs
  pub link : s'.link ≡ core ObjKind.link h.link_refs h.link_weak h.link_state
  pub neigh_cnt : s'.counts.neighs + 1 ≡ s.counts.neighs
  pub target_cnt : s'.counts.targets + length n.targets ≡ s.counts.targets
  pub route_cnt : s'.counts.routes + all_routes mode n.targets ≡ s.counts.routes

pub reapable_neigh :
    (mode : ObjMode) (k : ℕ) → obj_is_reapable mode (core ObjKind.neigh 0 k present) ≡ true
unfolding obj_is_reapable
reapable_neigh normal k = refl
reapable_neigh ObjMode.teardown k = refl

weak_unref-link :
    (refs weak : ℕ) (st : ObjState)
    → obj_link_weak_unref (core ObjKind.link refs (suc weak) st)
      ≡ ok (core ObjKind.link refs weak st)
unfolding obj_link_weak_unref obj_weak_unref
weak_unref-link refs weak present = ground arith
weak_unref-link refs weak installed = ground arith
weak_unref-link refs weak zombie = ground arith

module _ (rb : RbTree Neigh) (rb_erase : List ℕ → Tree Neigh → Tree Neigh) (image : TcRule → List ℕ)
    (mode : ObjMode) (pin : ℕ) (n : Neigh) (s : Fdb) (h : IsKept mode n s) where
  -- In either mode, with an `rb_erase` that takes the node of a key out of a search tree and keeps
  -- the order of the others: the removal of a neighbour that its address finds in the table of its
  -- link, which nobody but its targets refers to, where no target has a rule and every route is
  -- reaped with its target, returns without a failed assertion. Afterwards its address finds nothing,
  -- every other address finds what it found, its weak reference on the link is given back, the
  -- neighbour, its targets and its routes are counted down, and the calls are those of the routes in
  -- order.
  pub obj_neigh_delete-Gone :
      Erases neigh_key (memcmp-IsOrder 20) rb_erase
      → IsTable s.neighs
      → IsKey (neigh_key n)
      → lookup neigh_key memcmp (neigh_key n) s.neighs ≡ some n
      → All (Goes mode) n.targets
      → (s' : Fdb) × (obj_neigh_delete rb rb_erase image mode pin n s
          ≡ ok (s', all_calls mode n.targets))
        × Gone h s'
  unfolding obj_neigh_delete obj_free
  obj_neigh_delete-Gone law table fits stored all =
      let (n', steps, nn, nt, nr) =
        unref_targets-Goes image mode pin n.targets s.counts h.targets all h.target_cnt
          h.route_cnt in
      let cnt : n'.neighs ≡ suc (s.counts.neighs - 1) = omega (arith, h.neigh_cnt) in
      (
        record {
          link = core ObjKind.link h.link_refs h.link_weak h.link_state;
          neighs = rb_erase (neigh_key n) s.neighs;
          counts = record n' { neighs = s.counts.neighs - 1 };
        },
        rw (h.obj, reapable_neigh mode (length n.targets), steps, h.linked, h.link)
            (rw (weak_unref-link h.link_refs h.link_weak h.link_state, count_down-suc _ _ cnt)
              refl),
        record {
          neighs =
              erase-Erased neigh_key (memcmp-IsOrder 20) rb_erase n s.neighs law table fits stored;
          link = refl;
          neigh_cnt = omega (arith, h.neigh_cnt);
          target_cnt = nt;
          route_cnt = nr;
        },
      )
