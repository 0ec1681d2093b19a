-- ===== src/Installs/Stuck.antt =====
-- src/obj_target.c: a target that has lost its rule, or never had one.
use flower_route.Base.{
  Bool, ℕ, ◌≡◌, refl, true, Option, none, some, List, [], ◌∷◌, ◌++◌, ◌==◌, inl, inr, Bool-cases,
  ◌⊎◌,
}
use flower_route.Ret.{Ret, ok, ◌>>=◌}
use flower_route.TcRule.{TcRule, tc_rule_init, tc_rule_set_type_and_traits}
use flower_route.Rules.{Rule}
use flower_route.Targets.{is_lladdr_zero, obj_target_prepare_rule}
use flower_route.Installs.{Call, obj_target_set_rule, obj_target_neigh_update, unset_calls}

-- One call of `obj_target_neigh_update`: the memory of the rules, what `obj_rule_prime_request` would
-- return, and the fields of the target's link and neighbour at that time.
pub record Update : Type 0 where
  pub mem : ℕ → Rule
  pub found : Bool
  pub made : Option ℕ
  pub vlan_id : ℕ
  pub link_lladdr : List ℕ
  pub neigh_lladdr : List ℕ
  pub af : ℕ

rule_or_none :
    (flags vlan_id : ℕ) (src dst : List ℕ) (af : ℕ)
    → (obj_target_prepare_rule flags vlan_id src dst af ≡ ok none)
      ⊎ ((tcr : TcRule) × (obj_target_prepare_rule flags vlan_id src dst af ≡ ok (some tcr)))
unfolding obj_target_prepare_rule tc_rule_init tc_rule_set_type_and_traits
rule_or_none flags vlan_id src dst af = elim (Bool-cases (vlan_id == 0)) [
  | inl e ↦ inl (rw e refl)
  | inr e ↦ elim (Bool-cases (is_lladdr_zero src)) [
    | inl h ↦ inl (rw (e, h))
    | inr h ↦ elim (Bool-cases (is_lladdr_zero dst)) [
      | inl h' ↦ inl (rw (e, h, h'))
      | inr h' ↦ rw e (rw h (rw h' (inr (_, refl))))
    ]
  ]
]

none_of_zero :
    (flags vlan_id : ℕ) (src dst : List ℕ) (af : ℕ)
    → is_lladdr_zero dst ≡ true
    → obj_target_prepare_rule flags vlan_id src dst af ≡ ok none
unfolding obj_target_prepare_rule
none_of_zero flags vlan_id src dst af e = elim (Bool-cases (vlan_id == 0)) [
  | inl h ↦ rw h
  | inr h ↦ elim (Bool-cases (is_lladdr_zero src)) [ inl h' ↦ rw (h, h') | inr h' ↦ rw (h, h', e) ]
]

module _ (image : TcRule → List ℕ) (flags target : ℕ) where
  abbrev pub update : Update → Option ℕ → Ret (Option ℕ × List Call)
  update u rule =
      obj_target_neigh_update image flags u.mem u.found u.made target u.vlan_id u.link_lladdr
        u.neigh_lladdr u.af rule

  abbrev pub updates : List Update → Option ℕ → Ret (Option ℕ × List Call)
  updates [] rule = ok (rule, [])
  updates (u ∷ us) rule = do
    (rule', calls) ← update u rule
    (rule'', later) ← updates us rule'
    ok (rule'', calls ++ later)

  update-zero :
      (u : Update) (rule : Option ℕ)
      → is_lladdr_zero u.neigh_lladdr ≡ true
      → update u rule ≡ ok (none, unset_calls rule)
  unfolding obj_target_neigh_update obj_target_set_rule
  update-zero u rule e = rw (none_of_zero flags u.vlan_id u.link_lladdr u.neigh_lladdr u.af e)

  update-none : (u : Update) → update u none ≡ ok (none, [])
  unfolding obj_target_neigh_update obj_target_set_rule
  update-none u = elim (rule_or_none flags u.vlan_id u.link_lladdr u.neigh_lladdr u.af) [
    | inl e ↦ rw e refl
    | inr (tcr, e) ↦ rw e refl
  ]

  updates-none : (us : List Update) → updates us none ≡ ok (none, [])
  updates-none [] = refl
  updates-none (u ∷ us) = rw (update-none u) (rw (updates-none us) refl)

  -- Once the link layer address of its neighbour has been zero, a target gives its rule up if it has
  -- one, and no later update asks for another, whatever the neighbour and the link then say.
  pub updates-stuck :
      (u : Update) (us : List Update) (rule : Option ℕ)
      → is_lladdr_zero u.neigh_lladdr ≡ true
      → updates (u ∷ us) rule ≡ ok (none, unset_calls rule)
  updates-stuck u us none e = rw (update-none u) (rw (updates-none us) refl)
  updates-stuck u us (some p) e = rw (update-zero u (some p) e) (rw (updates-none us) refl)
