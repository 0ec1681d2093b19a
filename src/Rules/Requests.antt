-- ===== src/Rules/Requests.antt =====
-- `obj_rule_update_state` of src/obj_rule.c in every state: what it requests and what it counts.
use flower_route.Base.{
  ℕ, suc, ◌+◌, ◌%◌, ◌^◌, ◌<◌, ◌≡◌, refl, true, false, inl, inr, Option, none, some, List, [], ◌∷◌,
  ◌==◌, arith, ltb, Bool-cases,
}
use flower_route.Ret.{ok}
use flower_route.TcRule.{TcRule}
use flower_route.Obj.{ObjKind, is_zombie, kind_no}
use flower_route.Rules.{
  RuleState, alien, want, queued, new, dead, ok_state, ◌is◌, Rule, Call, tc_action_install, Step,
  obj_target_notify_routes, obj_target_weak_unref, laf_erase, pos_erase, notify, same_image,
  obj_rule_queue_install, obj_rule_queue_uninstall, settle, obj_rule_update_state,
}

-- How many requests a function makes.
abbrev pub requests : List Call → ℕ
requests [] = 0
requests (tc_action_install chain_no prio tcr ∷ calls) = suc (requests calls)
requests (obj_target_notify_routes t ∷ calls) = requests calls
requests (obj_target_weak_unref t ∷ calls) = requests calls
requests (laf_erase ∷ calls) = requests calls
requests (pos_erase ∷ calls) = requests calls

notify-requests : (t : Option ℕ) → requests (notify t) ≡ 0
notify-requests none = refl
notify-requests (some t) = refl

-- The function returned, its new references are its requests, and what is wanted and what the
-- kernel has are as before.
pub record Counted (before : Rule) (s : Step) : Type 0 where
  pub after : Rule
  pub calls : List Call
  pub returns : s ≡ ok (after, calls)
  pub counts : after.obj.refcnt ≡ before.obj.refcnt + requests calls
  pub same_wanted : after.wanted ≡ before.wanted
  pub same_have : after.have ≡ before.have

-- A rule object in use, whose counter is not about to wrap.
module _ (image : TcRule → List ℕ) (pin : ℕ) (r : Rule)
    (hk : (kind_no r.obj.kind == kind_no ObjKind.rule) ≡ true) (hz : is_zombie r.obj.state ≡ false)
    (hn : r.obj.refcnt + 1 < 2 ^ 32) where
  quiet :
      (state : RuleState) (calls : List Call)
      → requests calls ≡ 0
      → Counted r (ok (record r { state = state }, calls))
  quiet state calls h = record {
    after = record r { state = state };
    calls = calls;
    returns = refl;
    counts = omega arith;
    same_wanted = refl;
    same_have = refl;
  }

  requested :
      (s : Step) (tcr : Option TcRule)
      → s
        ≡ ok (
          record r { state = queued; obj = record r.obj { refcnt = r.obj.refcnt + 1 } },
          tc_action_install r.chain_no r.prio tcr ∷ [],
        )
      → Counted r s
  requested s tcr e = record {
    after = record r { state = queued; obj = record r.obj { refcnt = r.obj.refcnt + 1 } };
    calls = tc_action_install r.chain_no r.prio tcr ∷ [];
    returns = e;
    counts = omega arith;
    same_wanted = refl;
    same_have = refl;
  }

  small : (r.obj.refcnt + 1) % 2 ^ 32 ≡ r.obj.refcnt + 1
  small = omega arith

  install-Counted : Counted r (obj_rule_queue_install pin (record r { state = want }))
  unfolding obj_rule_queue_install
  install-Counted = elim (Bool-cases (ltb pin 2)) [
    | inl e ↦ rw e (quiet want [] refl)
    | inr e ↦ requested _ r.wanted (rw (e, hk, hz, small))
  ]

  uninstall-Counted : Counted r (obj_rule_queue_uninstall pin (record r { state = alien }))
  unfolding obj_rule_queue_uninstall
  uninstall-Counted = elim (Bool-cases (ltb pin 3)) [
    | inl e ↦ rw e (quiet alien [] refl)
    | inr e ↦ requested _ none (rw (e, hk, hz, small))
  ]

  settle-Counted : (w h : Option TcRule) → Counted r (settle image pin r w h)
  unfolding settle
  settle-Counted none none = elim (Bool-cases (r.state is new)) [
    | inl e ↦ rw e (quiet r.state [] refl)
    | inr e ↦ rw e (quiet dead [] refl)
  ]
  settle-Counted none (some h) = uninstall-Counted
  settle-Counted (some w) none = install-Counted
  settle-Counted (some w) (some h) = elim (Bool-cases (same_image image w h)) [
    | inl e ↦ rw e (quiet ok_state (notify r.target) (notify-requests r.target))
    | inr e ↦ rw e uninstall-Counted
  ]

  -- An update of a rule in use always returns; each request that it makes holds one new reference,
  -- there are no other new references, and what is wanted and what the kernel has are as before.
  pub update_state-Counted : Counted r (obj_rule_update_state image pin r)
  unfolding obj_rule_update_state
  update_state-Counted = elim (Bool-cases (pin == 0)) [
    | inl e ↦ rw e (quiet r.state [] refl)
    | inr e ↦ elim (Bool-cases (r.state is queued)) [
      | inl d ↦ rw (e, d) (quiet r.state [] refl)
      | inr d ↦ rw (e, d) (settle-Counted r.wanted r.have)
    ]
  ]
