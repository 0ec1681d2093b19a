-- ===== src/Targets/Tests.antt =====
-- Targets at concrete links and routes.
use flower_route.Base.{
  ◌≢◌, ℕ, ◌≡◌, ◌⊎◌, refl, none, some, List, [], ◌∷◌, ◌==◌, if◌then◌else◌, arith,
}
use flower_route.Ret.{ok}
use flower_route.TcRule.{TcRule}
use flower_route.Codec.Pedit.{Family}
use flower_route.Codec.Wire.{IsWire}
use flower_route.Targets.{Routes, obj_target_prepare_rule, obj_target_unlink_route}
use flower_route.Targets.Wire.{IsMac, mac, zero_mac, Forwards, obj_target_prepare_rule-IsWire}
use flower_route.Targets.Listed.{Spells}
use flower_route.Targets.Unlink.{obj_target_unlink_route-Spells}

abbrev one : List ℕ
one = 2 ∷ 0 ∷ 0 ∷ 0 ∷ 0 ∷ 1 ∷ []

abbrev two : List ℕ
two = 2 ∷ 0 ∷ 0 ∷ 0 ∷ 0 ∷ 2 ∷ []

abbrev vlan : ℕ
vlan = 42

one-IsMac : IsMac one
one-IsMac =
    mac 2 0 0 0 0 1 (omega arith) (omega arith) (omega arith) (omega arith) (omega arith)
      (omega arith)

two-IsMac : IsMac two
two-IsMac =
    mac 2 0 0 0 0 2 (omega arith) (omega arith) (omega arith) (omega arith) (omega arith)
      (omega arith)

obj_target_prepare_rule-IsWire_example :
    ((obj_target_prepare_rule 1 vlan one two 10 ≡ ok none)
      × ((vlan ≡ 0) ⊎ ((one ≡ zero_mac) ⊎ (two ≡ zero_mac))))
    ⊎ ((vlan ≢ 0)
        × (one ≢ zero_mac)
        × (two ≢ zero_mac)
        × ((tcr : TcRule) × (obj_target_prepare_rule 1 vlan one two 10 ≡ ok (some tcr))
            × IsWire tcr
            × Forwards vlan one two tcr))
obj_target_prepare_rule-IsWire_example =
    obj_target_prepare_rule-IsWire 1 (omega arith) Family.v6 vlan one two (omega arith) one-IsMac
      two-IsMac

-- The routes 10, 20 and 30.
abbrev three : Routes
three = record {
  first_route = some 10;
  last_route = some 30;
  t_next_route = λ r. if r == 10 then some 20 else if r == 20 then some 30 else none;
}

obj_target_unlink_route-Spells_example :
    (l' : Routes) × (obj_target_unlink_route 3 30 three ≡ some l')
    × Spells l' (10 ∷ 20 ∷ [])
    × (l'.t_next_route 30 ≡ none)
obj_target_unlink_route-Spells_example =
    obj_target_unlink_route-Spells 3 three (10 ∷ 20 ∷ []) 30 [] (omega arith) (record {
      leads = (refl, (refl, (refl, refl)));
      ends = refl;
      distinct = ((refl, (refl, tt)), ((refl, tt), (tt, tt)));
    })
