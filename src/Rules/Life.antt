-- ===== src/Rules/Life.antt =====
-- src/obj_rule.c: how a rule that someone holds comes into the kernel, step by step.
use flower_route.Base.{
  ℕ, ◌+◌, ◌-◌, ◌%◌, ◌^◌, ◌<◌, ◌≡◌, refl, ap, Bool, true, false, Option, none, some, List, [], ◌∷◌,
  ◌==◌, arith, length, lt→ltb,
}
use flower_route.Ret.{ok}
use flower_route.TcRule.{TcRule}
use flower_route.Keys.Orders.{memcmp-IsOrder}
use flower_route.Obj.{ObjMode, ObjState, ObjKind, present, installed, is_zombie}
use flower_route.Obj.Counts.{obj_ref_lem, obj_unref_lem, referenced-obj_is_reapable}
use flower_route.Rules.{
  RuleState, pending, queued, ok_state, ◌is◌, RuleUse, Rule, tc_action_install, notify, same_image,
  obj_rule_ref, obj_rule_queue_install, obj_rule_queue_uninstall, settle, obj_rule_update_state,
}
use flower_route.Rules.Handlers.{
  LastStep, kept, on_rule, run_request, obj_rule_unref, obj_rule_pre_install, obj_rule_post_install,
  obj_rule_delete, obj_rule_netlink_found,
}

-- A rule that a holder wants, with what changes in its life as arguments.
module _ (type : RuleUse) (chain_no prio weak : ℕ) (have_laf have_pos : Bool) (target : Option ℕ)
    (w : TcRule) where
  abbrev pub wanted_rule : ObjState → RuleState → (refcnt : ℕ) → Option TcRule → Rule
  wanted_rule obj_state state refcnt have = record {
    obj = record { kind = ObjKind.rule; refcnt = refcnt; weak_refcnt = weak; state = obj_state };
    type = type;
    state = state;
    chain_no = chain_no;
    prio = prio;
    have_laf = have_laf;
    have_pos = have_pos;
    target = target;
    have = have;
    wanted = some w;
  }

  abbrev in_use : ObjState → RuleState → (refcnt : ℕ) → Option TcRule → Rule
  in_use = wanted_rule

  ref_lem :
      (o : ObjState) (s : RuleState) (n : ℕ) (have : Option TcRule)
      → is_zombie o ≡ false
      → n + 1 < 2 ^ 32
      → obj_rule_ref (in_use o s n have) ≡ ok (in_use o s (n + 1) have)
  unfolding obj_rule_ref
  ref_lem o s n have hz h =
      ap (λ c. ok (record (in_use o s n have) { obj = c }))
        (obj_ref_lem (in_use o s n have).obj hz h)

  module _ (image : TcRule → List ℕ) (mode : ObjMode) where
    -- Giving a reference back while others are held.
    unref_lem :
        (pin : ℕ) (o : ObjState) (s : RuleState) (n : ℕ) (have : Option TcRule)
        → is_zombie o ≡ false
        → 0 < n
        → obj_rule_unref image mode pin (in_use o s (n + 1) have)
          ≡ ok (some (in_use o s n have), [])
    unfolding obj_rule_unref
    unref_lem pin o s n have hz h =
        let back : n + 1 - 1 ≡ n = omega arith in
        let held : (n == 0) ≡ false = ground arith in
        rw (obj_unref_lem (in_use o s (n + 1) have).obj hz (omega arith))
          (rw back (rw held (rw (referenced-obj_is_reapable mode (in_use o s n have).obj h))))

    -- With all pins removed: the update, its request, the kernel's answer that the filter is gone,
    -- the next request, and the kernel's answer with the filter `w`.
    abbrev pub replace_run : Rule → LastStep
    replace_run r =
        on_rule
          (on_rule
            (on_rule (on_rule (kept (obj_rule_update_state image 3 r)) (run_request image mode 3))
              (obj_rule_delete image mode 3))
            (run_request image mode 3))
          (λ r'. kept (obj_rule_netlink_found image mode 3 w r'))

    run_request_lem :
        (pin : ℕ) (o : ObjState) (n : ℕ) (have : Option TcRule)
        → is_zombie o ≡ false
        → 0 < n
        → run_request image mode pin (in_use o queued (n + 1) have)
          ≡ ok (some (in_use o pending n have), [])
    unfolding obj_rule_pre_install obj_rule_post_install
    run_request_lem pin o n have hz h = unref_lem pin o pending n have hz h

    module _ (n : ℕ) (h0 : 0 < n) (hn : n + 2 < 2 ^ 32) where
      -- The wish of a rule that the kernel has otherwise: removal first.
      uninstall_lem :
          (s : RuleState) (h : TcRule)
          → (s is queued) ≡ false
          → same_image image w h ≡ false
          → obj_rule_update_state image 3 (in_use installed s n (some h))
            ≡ ok (
              in_use installed queued (n + 1) (some h),
              tc_action_install chain_no prio none ∷ [],
            )
      unfolding obj_rule_update_state settle obj_rule_queue_uninstall
      uninstall_lem s h hs hw =
          let small : (n + 1) % 2 ^ 32 ≡ n + 1 = omega arith in rw (hs, hw, small)

      install_lem :
          (o : ObjState) (s : RuleState) (k : ℕ)
          → is_zombie o ≡ false
          → k + 1 < 2 ^ 32
          → (s is queued) ≡ false
          → obj_rule_update_state image 3 (in_use o s k none)
            ≡ ok (in_use o queued (k + 1) none, tc_action_install chain_no prio (some w) ∷ [])
      unfolding obj_rule_update_state settle obj_rule_queue_install
      install_lem o s k hz hk hs =
          let small : (k + 1) % 2 ^ 32 ≡ k + 1 = omega arith in rw (hs, hz, small)

      -- The kernel says that it has removed the rule: the wanted one is requested.
      delete_lem :
          (h : TcRule)
          → obj_rule_delete image mode 3 (in_use installed pending n (some h))
            ≡ ok (
              some (in_use present queued (n + 1) none),
              tc_action_install chain_no prio (some w) ∷ [],
            )
      unfolding obj_rule_delete
      delete_lem h =
          let small : (n + 1) % 2 ^ 32 ≡ n + 1 = omega arith in
          let small' : (n + 1 + 1) % 2 ^ 32 ≡ n + 1 + 1 = omega arith in
          let back : n + 1 + 1 - 1 ≡ n + 1 = omega arith in
          let held : (n + 1 == 0) ≡ false = ground arith in
          let kept_obj = (in_use present queued (n + 1) none).obj in
          let stays = referenced-obj_is_reapable mode kept_obj (omega arith) in
          rw small
            (rw small' (rw (lt→ltb 0 (n + 1 + 1) (omega arith)) (rw back (rw held (rw stays)))))

      same_self : same_image image w w ≡ true
      same_self = rw ((memcmp-IsOrder (length (image w))).self (image w) refl)

      -- The kernel says that it has the rule.
      found_lem :
          obj_rule_netlink_found image mode 3 w (in_use present pending n none)
          ≡ ok (in_use installed ok_state n (some w), notify target)
      unfolding obj_rule_netlink_found obj_rule_update_state settle
      found_lem = rw same_self

      -- A rule that someone holds and that the kernel has otherwise: with all pins removed, one
      -- update, the run of each request and the kernel's two answers bring it to the state `ok`
      -- with what is wanted, its references as before; a removal and then an installation are sent,
      -- and the routes of its target are notified.
      pub replaced :
          (s : RuleState) (h : TcRule)
          → (s is queued) ≡ false
          → same_image image w h ≡ false
          → replace_run (in_use installed s n (some h))
            ≡ ok (
              some (in_use installed ok_state n (some w)),
              tc_action_install chain_no prio none
                  ∷ tc_action_install chain_no prio (some w)
                  ∷ notify target,
            )
      replaced s h hs hw = rw (uninstall_lem s h hs hw) (
          rw (run_request_lem 3 installed n (some h) refl h0)
            (rw (delete_lem h) (rw (run_request_lem 3 present n none refl h0) (rw found_lem))))
