-- ===== src/TcRule/Tests.antt =====
-- The detection of types at concrete rules.
use flower_route.Base.{◌≢◌, ◌≡◌, ◌⊎◌, refl}
use flower_route.Ret.{ok}
use flower_route.TcRule.{
  TcRule, zero_rule, forward, alien, type_traits, tc_rule_detect, tc_rule_mark_alien,
  tc_rule_set_type_and_traits,
}
use flower_route.TcRule.Detect.{TraitsOf, tc_rule_detect_lem, detect-set_type_and_traits}

abbrev default_goto : TcRule
default_goto = record zero_rule { traits = 0x05 }

tc_rule_detect_lem_example :
    let (type, rule') = tc_rule_detect default_goto in
    TraitsOf type default_goto.traits
    × (((default_goto.traits ≡ 0x05) × (rule' ≡ record default_goto { traits = 0x07 }))
        ⊎ ((default_goto.traits ≢ 0x05) × (rule' ≡ default_goto)))
tc_rule_detect_lem_example = tc_rule_detect_lem default_goto

detect-set_type_and_traits_example :
    let rule' = record zero_rule { type = forward; traits = type_traits forward } in
    (tc_rule_set_type_and_traits zero_rule forward ≡ ok rule')
    × (tc_rule_detect rule' ≡ (forward, rule'))
detect-set_type_and_traits_example = detect-set_type_and_traits zero_rule forward tt refl refl

marked : tc_rule_mark_alien zero_rule ≡ ok (record zero_rule { type = alien })
unfolding tc_rule_mark_alien
marked = refl
