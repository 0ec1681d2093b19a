-- ===== src/Rules/Tests.antt =====
-- The life of a rule at concrete rules.
use flower_route.Base.{ℕ, ◌≡◌, refl, true, false, none, some, List, [], ◌∷◌, arith}
use flower_route.Ret.{ok}
use flower_route.Keys.{memcmp}
use flower_route.TcRule.{TcRule, zero_rule}
use flower_route.Obj.{normal, installed}
use flower_route.Rules.{
  ok_state, dynamic, Rule, tc_action_install, obj_target_notify_routes, same_image, obj_rule_alloc,
  obj_rule_update_state,
}
use flower_route.Rules.Life.{wanted_rule, replace_run, replaced}
use flower_route.Rules.Requests.{Counted, update_state-Counted}

abbrev flags_image : TcRule → List ℕ
flags_image rule = rule.flower_flags ∷ rule.goto_target ∷ []

abbrev goto_rule : ℕ → TcRule
goto_rule target = record zero_rule { goto_target = target }

images_differ : same_image flags_image (goto_rule 5) (goto_rule 4) ≡ false
unfolding memcmp
images_differ = refl

replaced_example :
    replace_run dynamic 1 100 1 false true (some 8) (goto_rule 5) flags_image normal (
      wanted_rule dynamic 1 100 1 false true
        (some 8)
        (goto_rule 5)
        installed
        ok_state
        1
        (some (goto_rule 4)))
    ≡ ok (
      some (
          wanted_rule dynamic 1 100 1 false true
            (some 8)
            (goto_rule 5)
            installed
            ok_state
            1
            (some (goto_rule 5))),
      tc_action_install 1 100 none
          ∷ tc_action_install 1 100 (some (goto_rule 5))
          ∷ obj_target_notify_routes 8
          ∷ [],
    )
replaced_example =
    replaced dynamic 1 100 1 false true (some 8) (goto_rule 5) flags_image normal 1 (omega arith)
      (omega arith) ok_state (goto_rule 4) refl images_differ

abbrev fresh : Rule
fresh = record obj_rule_alloc { chain_no = 1; prio = 100; wanted = some (goto_rule 5) }

update_state-Counted_example : Counted fresh (obj_rule_update_state flags_image 3 fresh)
update_state-Counted_example = update_state-Counted flags_image 3 fresh refl refl (omega arith)
