-- ===== src/Rules/Weak.antt =====
-- How often a rule gives its weak reference on its target back (`obj_rule_unref` of src/obj_rule.c).
use flower_route.Base.{
  ℕ, suc, ◌+◌, ◌≤◌, ◌≡◌, refl, Bool, true, false, Option, none, some, List, [], ◌∷◌, ◌++◌,
  if◌then◌else◌, arith,
}
use flower_route.Ret.{Ret, ok, error, aborted, ◌>>=◌}
use flower_route.TcRule.{TcRule}
use flower_route.Obj.{ObjMode, obj_unref, obj_is_reapable}
use flower_route.Rules.{
  obj_assert_kind, Rule, Call, tc_action_install, obj_target_notify_routes, obj_target_weak_unref,
  laf_erase, pos_erase, Step, obj_rule_queue_uninstall, settle, obj_rule_update_state,
  obj_rule_uninstall,
}
use flower_route.Rules.Handlers.{
  reap_if_due, unset_target_calls, LastStep, after, obj_rule_unset_target, erase_calls,
  obj_rule_reap, obj_rule_unref,
}

abbrev pub weak_calls : List Call → ℕ
weak_calls [] = 0
weak_calls (obj_target_weak_unref p ∷ calls) = suc (weak_calls calls)
weak_calls (_ ∷ calls) = weak_calls calls

-- At most that many, if the function returns.
abbrev pub AtMost {ℓ} : {A : Type ℓ} → ℕ → Ret (A × List Call) → Type 0
AtMost k (ok (a, calls)) = weak_calls calls ≤ k
AtMost k error = Unit
AtMost k aborted = Unit

AtMost-bind :
    {A : Type 0} {B : Type 0} (k : ℕ) (m : Ret A) (f : A → Ret (B × List Call))
    → ((a : A) → AtMost k (f a))
    → AtMost k (m >>= f)
AtMost-bind k (ok a) f h = h a
AtMost-bind k error f h = tt
AtMost-bind k aborted f h = tt

weak_calls-append : (xs ys : List Call) → weak_calls (xs ++ ys) ≡ weak_calls xs + weak_calls ys
weak_calls-append [] ys = omega arith
weak_calls-append (tc_action_install c p t ∷ xs) ys = weak_calls-append xs ys
weak_calls-append (obj_target_notify_routes t ∷ xs) ys = weak_calls-append xs ys
weak_calls-append (obj_target_weak_unref t ∷ xs) ys = omega (arith, weak_calls-append xs ys)
weak_calls-append (laf_erase ∷ xs) ys = weak_calls-append xs ys
weak_calls-append (pos_erase ∷ xs) ys = weak_calls-append xs ys

weak_calls-erase :
    (a b : Bool)
    → weak_calls ((if a then laf_erase ∷ [] else []) ++ (if b then pos_erase ∷ [] else [])) ≡ 0
weak_calls-erase true true = refl
weak_calls-erase true false = refl
weak_calls-erase false true = refl
weak_calls-erase false false = refl

AtMost-if :
    {A : Type 0} (b : Bool) (k : ℕ) (x y : Ret (A × List Call))
    → AtMost k x
    → AtMost k y
    → AtMost k (if b then x else y)
AtMost-if true k x y hx hy = hx
AtMost-if false k x y hx hy = hy

after-AtMost :
    {A : Type 0} (calls : List Call) (s : Ret (A × List Call))
    → weak_calls calls ≤ 0
    → AtMost 1 s
    → AtMost 1 (after calls s)
after-AtMost calls (ok (a, later)) h k = omega (arith, weak_calls-append calls later)
after-AtMost calls error h k = tt
after-AtMost calls aborted h k = tt

bind-after :
    (m : Step) (f : Rule → LastStep)
    → AtMost 0 m
    → ((r : Rule) → AtMost 1 (f r))
    → AtMost 1 (m >>= λ x. after x.1 (f x.0))
bind-after (ok (r, calls)) f h k = after-AtMost calls (f r) h (k r)
bind-after error f h k = tt
bind-after aborted f h k = tt

unset_target-AtMost : (r : Rule) → AtMost 1 (obj_rule_unset_target r)
unfolding obj_rule_unset_target
unset_target-AtMost r = ground arith

unset_target_calls_few : (t : Option ℕ) → weak_calls (unset_target_calls t) ≤ 1
unset_target_calls_few none = omega arith
unset_target_calls_few (some t) = omega arith

reap-AtMost : (r : Rule) → AtMost 1 (obj_rule_reap r)
unfolding obj_rule_reap
reap-AtMost r = ground (
  arith,
  unset_target_calls_few r.target,
  weak_calls-append (unset_target_calls r.target) (erase_calls r),
  weak_calls-erase r.have_laf r.have_pos,
)

module _ (image : TcRule → List ℕ) (mode : ObjMode) (pin : ℕ) where
  uninstall-AtMost : (r : Rule) → AtMost 0 (obj_rule_uninstall image pin r)
  unfolding obj_rule_uninstall obj_rule_update_state settle obj_rule_queue_uninstall
  uninstall-AtMost r = ground arith

  reap_if_due-AtMost : (r : Rule) → AtMost 1 (reap_if_due image mode pin r)
  reap_if_due-AtMost r =
      AtMost-if (obj_is_reapable mode r.obj) 1 (obj_rule_reap r) (ok (some r, [])) (reap-AtMost r)
        (omega arith)

  -- A rule gives at most one weak reference back when a reference on it is given up.
  pub obj_rule_unref-AtMost : (r : Rule) → AtMost 1 (obj_rule_unref image mode pin r)
  unfolding obj_rule_unref
  obj_rule_unref-AtMost r = AtMost-bind 1 (obj_assert_kind r) _ (λ _.
      AtMost-bind 1 (obj_unref r.obj) _ (λ core.
        AtMost-if _ 1 _ _
          (bind-after (obj_rule_uninstall image pin (record r { obj = core })) _
            (uninstall-AtMost (record r { obj = core })) reap_if_due-AtMost)
          (reap_if_due-AtMost (record r { obj = core }))))
