-- ===== src/Rules/Handlers.antt =====
-- src/obj_rule.c: giving up a reference, and the handlers of the kernel's messages, of the queue
-- and of the requests of other modules, after they have found or made the object.
use flower_route.Base.{
  ℕ, Bool, true, false, ◌&&◌, not, Option, none, some, List, [], ◌∷◌, ◌++◌, ◌==◌, is_some,
  if◌then◌else◌,
}
use flower_route.Ret.{Ret, ok, aborted, assert, ◌>>=◌, ◌>>◌}
use flower_route.TcRule.{TcRule}
use flower_route.Obj.{
  ObjMode, normal, present, installed, zombie, obj_unref, obj_free, obj_is_reapable,
}
use flower_route.Rules.{
  pending, queued, ◌is◌, static, is_static, Rule, Call, obj_target_weak_unref, laf_erase, pos_erase,
  Step, obj_assert_kind, obj_rule_ref, obj_rule_alloc, same_image, obj_rule_update_state,
  obj_rule_uninstall,
}

-- The result of a function that may free the object.
abbrev pub LastStep : Type 0
LastStep = Ret (Option Rule × List Call)

abbrev pub kept : Step → LastStep
kept s = do (r, calls) ← s; ok (some r, calls)

-- `calls` came before those of `s`.
abbrev pub after : {A : Type 0} → List Call → Ret (A × List Call) → Ret (A × List Call)
after calls s = do (r, later) ← s; ok (r, calls ++ later)

-- A function on the object that is still there.
abbrev pub on_rule : LastStep → (Rule → LastStep) → LastStep
on_rule s f = do (r, calls) ← s; elim r [ none ↦ aborted | some r' ↦ after calls (f r') ]

abbrev pub unset_target_calls : Option ℕ → List Call
unset_target_calls none = []
unset_target_calls (some t) = obj_target_weak_unref t ∷ []

-- `obj_rule_unset_target`.
unfoldable pub obj_rule_unset_target : Rule → Step
obj_rule_unset_target r = do
  obj_assert_kind r
  ok (record r { target = none }, unset_target_calls r.target)

abbrev pub erase_calls : Rule → List Call
erase_calls r =
    (if r.have_laf then laf_erase ∷ [] else []) ++ (if r.have_pos then pos_erase ∷ [] else [])

-- `obj_rule_reap`: the object is freed.
unfoldable pub obj_rule_reap : Rule → LastStep
unfolding obj_rule_unset_target obj_free
obj_rule_reap r = do
  assert (r.obj.refcnt == 0)
  (r', calls) ← obj_rule_unset_target (record r { obj = record r.obj { state = zombie } })
  core ← obj_free r'.obj
  ok (none, calls ++ erase_calls r)

abbrev pub is_normal : ObjMode → Bool
is_normal normal = true
is_normal ObjMode.teardown = false

module _ (image : TcRule → List ℕ) (mode : ObjMode) (pin : ℕ) where
  abbrev pub reap_if_due : Rule → LastStep
  reap_if_due r = if obj_is_reapable mode r.obj then obj_rule_reap r else ok (some r, [])

  -- `obj_rule_unref`.
  unfoldable pub obj_rule_unref : Rule → LastStep
  unfolding obj_unref obj_is_reapable obj_rule_reap obj_rule_uninstall
  obj_rule_unref r = do
    obj_assert_kind r
    core ← obj_unref r.obj
    let r' = record r { obj = core }
    if (core.refcnt == 0)
          && (is_some r'.wanted && (is_some r'.have && (is_normal mode && not (is_static r'.type))))
        then (do (r'', calls) ← obj_rule_uninstall image pin r'; after calls (reap_if_due r''))
        else reap_if_due r'

  unfoldable pub obj_rule_pre_install : Rule → Ret Rule
  obj_rule_pre_install r = do assert (r.state is queued); ok (record r { state = pending })

  unfoldable pub obj_rule_post_install : Rule → LastStep
  unfolding obj_rule_unref
  obj_rule_post_install r = obj_rule_unref r

  -- The queue runs a request: the object is pending, and its reference is given back.
  abbrev pub run_request : Rule → LastStep
  run_request r = obj_rule_pre_install r >>= obj_rule_post_install

  -- `obj_rule_delete`.
  unfoldable pub obj_rule_delete : Rule → LastStep
  unfolding obj_rule_ref obj_rule_update_state obj_rule_unref
  obj_rule_delete r = do
    r' ← obj_rule_ref r
    let r'' = record r' { obj = record r'.obj { state = present }; have = none }
    (r3, calls) ← (if is_some r''.wanted then obj_rule_update_state image pin r'' else ok (r'', []))
    after calls (obj_rule_unref r3)

  -- `r->have == NULL || memcmp(r->have, tcr, sizeof(struct tc_rule)) != 0`
  abbrev pub differs : Option TcRule → TcRule → Bool
  differs none tcr = true
  differs (some h) tcr = not (same_image image h tcr)

  -- The part of `obj_rule_netlink_found` for a filter of the kernel that has an object.
  unfoldable pub obj_rule_netlink_found : TcRule → Rule → Step
  unfolding obj_rule_update_state
  obj_rule_netlink_found tcr r =
      let r' =
        (if is_some r.have then r else record r { obj = record r.obj { state = installed } }) in
      if differs r.have tcr
      then obj_rule_update_state image pin (record r' { have = some tcr })
      else ok (r, [])

  -- `obj_rule_static_want`, but for the lookup and the insertion, which `Sched.Prefixes` adds; what
  -- is here does not depend on `have_pos`.
  unfoldable pub obj_rule_static_want : (chain_no prio : ℕ) → TcRule → Step
  unfolding obj_rule_update_state
  obj_rule_static_want chain_no prio tcr =
      obj_rule_update_state image pin (record obj_rule_alloc {
        chain_no = chain_no;
        prio = prio;
        type = static;
        wanted = some tcr;
      })

  -- `obj_rule_prime_request` for a rule that the scheduler places.
  unfoldable pub prime_request_placed : (chain_no prio : ℕ) → TcRule → Ret Rule
  unfolding obj_rule_ref
  prime_request_placed chain_no prio tcr = do
    r ← obj_rule_ref obj_rule_alloc
    ok (record r { chain_no = chain_no; prio = prio; wanted = some tcr; have_pos = true })

  -- `obj_rule_prime_request` for a rule of the lost and found tree.
  unfoldable pub prime_request_found : TcRule → Rule → Ret (Rule × List Call)
  unfolding obj_rule_ref
  prime_request_found tcr r = do
    r' ← obj_rule_ref r
    assert (is_some r'.have)
    assert (not (is_some r'.wanted))
    assert r'.have_laf
    r'' ← obj_rule_ref (record r' { wanted = some tcr; have_laf = false })
    ok (r'', laf_erase ∷ [])
