-- ===== src/Neighs/Faults.antt =====
-- src/obj_neigh.c: the removal of a neighbour that the kernel still has routes over.
use flower_route.Base.{
  ℕ, zero, suc, ◌+◌, ◌-◌, ◌≤◌, ◌≡◌, ◌≢◌, refl, false, Option, none, some, List, [], ◌∷◌, map,
  length, All, inl, inr, ◌==◌, arith,
}
use flower_route.Ret.{Ret, ok, error, aborted, assert, ◌>>=◌, ◌>>◌}
use flower_route.TcRule.{TcRule}
use flower_route.Search.{Tree, RbTree}
use flower_route.Obj.{ObjMode, ObjCore, obj_weak_unref}
use flower_route.Rules
use flower_route.Rules.Handlers
use flower_route.Rules.Handlers.{LastStep}
use flower_route.Rules.Weak.{weak_calls, AtMost, obj_rule_unref-AtMost}
use flower_route.Neighs.{Fdb, obj_neigh_delete}
use flower_route.Neighs.Objects.{TargetRule, Target, Neigh, Counts, Call, rule_call}
use flower_route.Neighs.Reap.{
  unref_object, give_back, unref_rule_of, obj_target_reap, obj_target_unref, unref_targets,
}
use flower_route.Neighs.Dying.{dying, with_weak, weak_of, IsTarget, unref_routes_lem}
use flower_route.Neighs.Removed.{
  reapable_neigh, IsKept, dying_neigh, weak_unref-neigh, unref_due, HasStaying, SomeStaying,
  all_routes, obj_target_unref-Goes,
}

-- The function does not return.
abbrev Fails : {A : Type 0} → Ret A → Type 0
Fails (ok a) = ⊥
Fails error = Unit
Fails aborted = Unit

Fails-bind : {A B : Type 0} (m : Ret A) (f : A → Ret B) → Fails m → Fails (m >>= f)
Fails-bind (ok a) f h = absurd h
Fails-bind error f h = tt
Fails-bind aborted f h = tt

Fails-ne : {A : Type 0} (m : Ret A) → Fails m → (x : A) → m ≢ ok x
Fails-ne (ok a) f x = absurd f
Fails-ne error f x = λ e. cc
Fails-ne aborted f x = λ e. cc

Fails-then : {A B : Type 0} (m : Ret A) (f : A → Ret B) → ((a : A) → Fails (f a)) → Fails (m >>= f)
Fails-then (ok a) f h = h a
Fails-then error f h = tt
Fails-then aborted f h = tt

-- At least that many weak references are left, if the function returns.
abbrev Keeps : ℕ → Ret ObjCore → Type 0
Keeps j (ok c) = j ≤ c.weak_refcnt
Keeps j error = Unit
Keeps j aborted = Unit

abbrev Leaves : ℕ → Ret (Target × List Call) → Type 0
Leaves j (ok x) = j ≤ x.0.obj.weak_refcnt
Leaves j error = Unit
Leaves j aborted = Unit

weak_unref-target : (k : ℕ) → obj_weak_unref (dying (suc k)) ≡ ok (dying k)
unfolding obj_weak_unref
weak_unref-target k = ground arith

give_back-Keeps :
    (j k : ℕ) (calls : List Rules.Call)
    → j + weak_calls calls ≤ k
    → Keeps j (give_back calls (dying k))
unfolding give_back
give_back-Keeps j k [] h = omega arith
give_back-Keeps j zero (Rules.Call.obj_target_weak_unref p ∷ calls) h = absurd (omega arith)
give_back-Keeps j (suc k) (Rules.Call.obj_target_weak_unref p ∷ calls) h =
    rw (weak_unref-target k) (give_back-Keeps j k calls (omega arith))
give_back-Keeps j k (Rules.Call.tc_action_install c p t ∷ calls) h = give_back-Keeps j k calls h
give_back-Keeps j k (Rules.Call.obj_target_notify_routes p ∷ calls) h = give_back-Keeps j k calls h
give_back-Keeps j k (Rules.Call.laf_erase ∷ calls) h = give_back-Keeps j k calls h
give_back-Keeps j k (Rules.Call.pos_erase ∷ calls) h = give_back-Keeps j k calls h

Keeps-Leaves :
    (j : ℕ) (m : Ret ObjCore) (f : ObjCore → Target) (calls : List Call)
    → ((c : ObjCore) → (f c).obj ≡ c)
    → Keeps j m
    → Leaves j (m >>= λ c. ok (f c, calls))
Keeps-Leaves j (ok c) f calls e h = rw (e c) h
Keeps-Leaves j error f calls e h = tt
Keeps-Leaves j aborted f calls e h = tt

module _ (image : TcRule → List ℕ) (mode : ObjMode) (pin : ℕ) where
  after_unref :
      (j k : ℕ) (r : TargetRule) (t : Target) (m : LastStep)
      → j + 1 ≤ k
      → AtMost 1 m
      → Leaves j (
          m >>= λ x. give_back x.1 (dying k) >>= λ obj.
          ok (record t { obj = obj; rule = some (record r { rule = x.0 }) }, map rule_call x.1))
  after_unref j k r t (ok (rule, calls)) h few =
      Keeps-Leaves j (give_back calls (dying k))
        (λ c. record t { obj = c; rule = some (record r { rule = rule }) }) (map rule_call calls)
        (λ c. refl) (give_back-Keeps j k calls (omega arith))
  after_unref j k r t error h few = tt
  after_unref j k r t aborted h few = tt

  unref_object-Leaves :
      (j k : ℕ) (r : TargetRule) (rule : Option Rules.Rule) (t : Target)
      → j + 1 ≤ k
      → Leaves j (unref_object image mode pin r rule (with_weak k t))
  unfolding unref_object
  unref_object-Leaves j k r none t h = tt
  unref_object-Leaves j k r (some rule) t h =
      after_unref j k r (with_weak k t) (Handlers.obj_rule_unref image mode pin rule) h
        (obj_rule_unref-AtMost image mode pin rule)

  -- The rule of a target gives back what it holds, at most.
  unref_rule_of-Leaves :
      (j k : ℕ) (r : Option TargetRule) (t : Target)
      → j + weak_of r ≤ k
      → Leaves j (unref_rule_of image mode pin r (with_weak k t))
  unfolding unref_rule_of
  unref_rule_of-Leaves j k none t h = omega arith
  unref_rule_of-Leaves j k (some r) t h = unref_object-Leaves j k r r.rule t h

  still_held :
      {A : Type 0} (m : Ret (Target × List Call)) (f : Target × List Call → Ret A)
      → Leaves 1 m
      → Fails (m >>= λ x. assert (x.0.obj.weak_refcnt == 0) >> f x)
  still_held (ok x) f h = let held : (x.0.obj.weak_refcnt == 0) ≡ false = ground arith in rw held tt
  still_held error f h = tt
  still_held aborted f h = tt

  -- A target with a route that stays cannot be reaped.
  obj_target_unref-Fails :
      (k : ℕ) (t : Target) (n : Counts)
      → IsTarget mode t
      → HasStaying mode t
      → length t.routes ≤ n.routes
      → Fails (obj_target_unref image mode pin (dying_neigh (suc k)) t n)
  unfolding obj_target_reap
  obj_target_unref-Fails k t n it stays hr =
      let w = length t.routes + weak_of t.rule in
      let (w', n', steps, left) =
        unref_routes_lem image mode pin t.routes w t n it.routes (omega arith) hr in
      rw (unref_due image mode pin (dying_neigh (suc k)) t n it, weak_unref-neigh k, steps)
        (still_held (unref_rule_of image mode pin t.rule (with_weak w' t)) _
          (unref_rule_of-Leaves 1 w' t.rule t (omega (arith, left.weak, stays))))

  unref_targets-Fails :
      (ts : List Target) (n : Counts)
      → All (IsTarget mode) ts
      → SomeStaying mode ts
      → length ts ≤ n.targets
      → all_routes mode ts ≤ n.routes
      → Fails (unref_targets image mode pin ts (dying_neigh (length ts)) n)
  unfolding unref_targets
  unref_targets-Fails [] n it stays ht hr = absurd stays
  unref_targets-Fails (t ∷ ts) n it (inl here) ht hr =
      Fails-bind (obj_target_unref image mode pin (dying_neigh (suc (length ts))) t n) _
        (obj_target_unref-Fails (length ts) t n it.0 here (omega arith))
  unref_targets-Fails (t ∷ ts) n it (inr (goes, later)) ht hr =
      let (n1, step, n1n, n1t, n1r) =
        obj_target_unref-Goes image mode pin (length ts) (n.targets - 1) t n it.0 goes (omega arith)
          (omega arith) in
      let ih = unref_targets-Fails ts n1 it.1 later (omega arith) (omega arith) in
      rw step (Fails-bind (unref_targets image mode pin ts (dying_neigh (length ts)) n1) _ ih)

module _ (rb : RbTree Neigh) (rb_erase : List ℕ → Tree Neigh → Tree Neigh) (image : TcRule → List ℕ)
    (mode : ObjMode) (pin : ℕ) (n : Neigh) (s : Fdb) (h : IsKept mode n s) where
  delete-Fails :
      SomeStaying mode n.targets → Fails (obj_neigh_delete rb rb_erase image mode pin n s)
  unfolding obj_neigh_delete
  delete-Fails stays =
      rw (h.obj, reapable_neigh mode (length n.targets))
        (Fails-bind
          (unref_targets image mode pin n.targets (dying_neigh (length n.targets)) s.counts) _
          (unref_targets-Fails image mode pin n.targets s.counts h.targets stays h.target_cnt
            h.route_cnt))

  -- In either mode, the removal of a neighbour in the table of its link, which nobody but its targets
  -- refers to, does not return if a route over one of the targets, after targets that go, is not
  -- reaped with it: in normal mode, if the kernel still has the route.
  pub obj_neigh_delete-never_ok :
      SomeStaying mode n.targets
      → ¬ ((x : Fdb × List Call) × (obj_neigh_delete rb rb_erase image mode pin n s ≡ ok x))
  obj_neigh_delete-never_ok stays (x, e) =
      Fails-ne (obj_neigh_delete rb rb_erase image mode pin n s) (delete-Fails stays) x e
