-- ===== src/Installs/Tests.antt =====
-- Targets and routes that take and give up rules, at concrete rules.
use flower_route.Base.{true, ℕ, ◌≡◌, refl, none, some, List, [], ◌∷◌}
use flower_route.Ret.{ok}
use flower_route.TcRule.{TcRule, zero_rule}
use flower_route.AfAddr.{AfAddr}
use flower_route.Rules.{Rule, ok_state, obj_rule_alloc}
use flower_route.Installs.{obj_rule_unset_target, obj_rule_unref}
use flower_route.Installs.Lifetime.{Notice, Even, lifetime, lifetime-Even}
use flower_route.Installs.Stuck.{Update, updates, updates-stuck}

abbrev flags_image : TcRule → List ℕ
flags_image rule = rule.flower_flags ∷ rule.goto_target ∷ []

abbrev prefix : AfAddr
prefix = record {
  af = 2;
  mask_len = 24;
  addr = 192 ∷ 0 ∷ 2 ∷ 0 ∷ 0 ∷ 0 ∷ 0 ∷ 0 ∷ 0 ∷ 0 ∷ 0 ∷ 0 ∷ 0 ∷ 0 ∷ 0 ∷ 0 ∷ [];
}

-- Every rule is in its chain, in the state ok, and wanted as a goto to chain 7.
abbrev rules : ℕ → Rule
rules p = record obj_rule_alloc {
  state = ok_state;
  chain_no = p;
  wanted = some (record zero_rule { goto_target = 7 });
}

abbrev notice : ℕ → ℕ → Notice
notice target_rule made = record {
  mem = rules;
  target_rule = target_rule;
  found = true;
  made = made;
}

-- The second installation moves from the target's rule 5 to its rule 6.
abbrev notices : List Notice
notices = notice 5 100 ∷ notice 6 101 ∷ []

lifetime-Even_example : Even 5 (lifetime flags_image 3 notices prefix)
lifetime-Even_example = lifetime-Even flags_image 3 5 notices prefix (refl, (refl, tt))

abbrev heard : List ℕ → Update
heard lladdr = record {
  mem = rules;
  found = true;
  made = some 101;
  vlan_id = 10;
  link_lladdr = 2 ∷ 0 ∷ 0 ∷ 0 ∷ 0 ∷ 1 ∷ [];
  neigh_lladdr = lladdr;
  af = 2;
}

abbrev no_lladdr : List ℕ
no_lladdr = 0 ∷ 0 ∷ 0 ∷ 0 ∷ 0 ∷ 0 ∷ []

-- The neighbour is resolved again, without effect.
updates-stuck_example :
    updates flags_image 3 200 (heard no_lladdr ∷ heard (2 ∷ 0 ∷ 0 ∷ 0 ∷ 0 ∷ 7 ∷ []) ∷ []) (some 100)
    ≡ ok (none, obj_rule_unset_target 100 ∷ obj_rule_unref 100 ∷ [])
updates-stuck_example =
    updates-stuck flags_image 3 200 (heard no_lladdr) (heard (2 ∷ 0 ∷ 0 ∷ 0 ∷ 0 ∷ 7 ∷ []) ∷ [])
      (some 100) refl
