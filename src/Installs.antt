-- ===== src/Installs.antt =====
-- src/obj_target.c and src/obj_route.c: which rules a target and a route hold, and the references that
-- they take on them and give back. A rule is its address; `mem` is the memory of the rules at the
-- time of the call, and `made` the address that `obj_rule_prime_request` returns, or NULL; `found`
-- says whether it was in the lost and found tree, where the function takes two references on it. A function returns the object and its calls into src/obj_rule.c, in order.
pub mod Balance
pub mod Lifetime
pub mod Owned
pub mod Stuck
mod Tests
use flower_route.Base.{
  ℕ, ◌+◌, Bool, true, false, ◌&&◌, not, Option, none, some, List, [], ◌∷◌, ◌++◌, ◌==◌,
  if◌then◌else◌,
}
use flower_route.Ret.{Ret, ok, aborted, assert, ◌>>=◌, ◌>>◌}
use flower_route.AfAddr.{AfAddr}
use flower_route.TcRule.{TcRule}
use flower_route.Rules.{Rule, ok_state, ◌is◌, same_image}
use flower_route.Targets.{obj_target_prepare_rule, obj_route_prepare_rule}

-- What `struct obj_route` has of rules.
pub record RouteRules : Type 0 where
  pub dst : AfAddr
  pub rule : Option ℕ
  pub target_rule : Option ℕ

pub data Call : Type 0 where
  obj_rule_ref obj_rule_unref obj_rule_unset_target obj_rule_queue_request : ℕ → Call
  obj_rule_set_target : (rule target : ℕ) → Call
  obj_rule_prime_request : TcRule → (found : Bool) → (made : Option ℕ) → Call

abbrev pub queue_made : Option ℕ → List Call
queue_made none = []
queue_made (some p) = obj_rule_queue_request p ∷ []

-- `obj_rule_request`.
abbrev pub obj_rule_request : TcRule → Bool → Option ℕ → List Call
obj_rule_request tcr found made = obj_rule_prime_request tcr found made ∷ queue_made made

abbrev pub needed : Option ℕ → Ret ℕ
needed none = aborted
needed (some p) = ok p

-- The references on the rule `p` that calls take, those that they give back, and those that a
-- pointer holds.
abbrev pub is_at : ℕ → ℕ → ℕ
is_at p q = if p == q then 1 else 0

abbrev pub points : ℕ → Option ℕ → ℕ
points p none = 0
points p (some q) = is_at p q

-- The second reference on a rule of the lost and found tree.
abbrev pub second : ℕ → Bool → Option ℕ → ℕ
second p false made = 0
second p true made = points p made

unfoldable pub taken : ℕ → List Call → ℕ
taken p [] = 0
taken p (obj_rule_ref q ∷ calls) = is_at p q + taken p calls
taken p (obj_rule_prime_request tcr found made ∷ calls) =
    points p made + second p found made + taken p calls
taken p (_ ∷ calls) = taken p calls

unfoldable pub given : ℕ → List Call → ℕ
given p [] = 0
given p (obj_rule_unref q ∷ calls) = is_at p q + given p calls
given p (_ ∷ calls) = given p calls

-- The second references among those that calls take.
unfoldable pub seconds : ℕ → List Call → ℕ
seconds p [] = 0
seconds p (obj_rule_prime_request tcr found made ∷ calls) = second p found made + seconds p calls
seconds p (_ ∷ calls) = seconds p calls

abbrev pub holds : ℕ → RouteRules → ℕ
holds p r = points p r.rule + points p r.target_rule

abbrev pub unref_calls : Option ℕ → List Call
unref_calls none = []
unref_calls (some p) = obj_rule_unref p ∷ []

abbrev pub unset_calls : Option ℕ → List Call
unset_calls none = []
unset_calls (some p) = obj_rule_unset_target p ∷ obj_rule_unref p ∷ []

-- The rule that the route's target had, and the one that it has.
abbrev pub move_target : (old target_rule : ℕ) → List Call
move_target old target_rule =
    if old == target_rule then [] else obj_rule_unref old ∷ obj_rule_ref target_rule ∷ []

module _ (image : TcRule → List ℕ) (flags : ℕ) (mem : ℕ → Rule) (found : Bool)
    (made : Option ℕ) where
  -- `current_tcr && memcmp(current_tcr, &new_tcr, sizeof(struct tc_rule)) != 0`
  abbrev pub is_other : Option TcRule → TcRule → Bool
  is_other none tcr = false
  is_other (some current_tcr) tcr = not (same_image image current_tcr tcr)

  -- The route's rule is replaced, and its target's rule if that is another one.
  abbrev pub replace_rule :
      RouteRules → (rule target_rule : ℕ) → TcRule → Ret (RouteRules × List Call)
  replace_rule r rule target_rule tcr = do
    old ← needed r.target_rule
    ok (
      record r { rule = made; target_rule = some target_rule },
      obj_rule_ref rule
          ∷ obj_rule_ref old
          ∷ (move_target old target_rule
              ++ (obj_rule_unref rule
                  ∷ (obj_rule_request tcr found made
                      ++ (obj_rule_unref old ∷ obj_rule_unref rule ∷ [])))),
    )

  abbrev pub install_rule : RouteRules → Option ℕ → ℕ → TcRule → Ret (RouteRules × List Call)
  install_rule r none target_rule tcr = ok (
    record r { rule = made; target_rule = some target_rule },
    obj_rule_ref target_rule ∷ obj_rule_request tcr found made,
  )
  install_rule r (some rule) target_rule tcr =
      if is_other (mem rule).wanted tcr then replace_rule r rule target_rule tcr else ok (r, [])

  -- `target_rule` is `r->target->rule`.
  unfoldable pub obj_route_install :
      (target_rule : Option ℕ) → RouteRules → Ret (RouteRules × List Call)
  obj_route_install target_rule r = do
    p ← needed target_rule
    tcr ← obj_route_prepare_rule flags r.dst (mem p)
    install_rule r r.rule p tcr

  abbrev pub set_made : (target : ℕ) → Option ℕ → List Call
  set_made target none = []
  set_made target (some p) = obj_rule_set_target p target ∷ obj_rule_queue_request p ∷ []

  -- The target's rule afterwards, and the calls; without a rule no route is notified.
  unfoldable pub obj_target_set_rule :
      (target : ℕ) → Option TcRule → (rule : Option ℕ) → Option ℕ × List Call
  obj_target_set_rule target none rule = (none, unset_calls rule)
  obj_target_set_rule target (some tcr) rule =
      (made, unset_calls rule ++ obj_rule_prime_request tcr found made ∷ set_made target made)

  abbrev pub set_if_prepared : (target : ℕ) → Option TcRule → Option ℕ → Option ℕ × List Call
  set_if_prepared target none rule = (rule, [])
  set_if_prepared target (some tcr) rule = obj_target_set_rule target (some tcr) rule

  -- `vlan_id`, `link_lladdr`, `neigh_lladdr` and `af` are those of the target's link and neighbour.
  unfoldable pub obj_target_install :
      (target vlan_id : ℕ) (link_lladdr neigh_lladdr : List ℕ) (af : ℕ)
      → (rule : Option ℕ) → Ret (Option ℕ × List Call)
  unfolding obj_target_set_rule
  obj_target_install target vlan_id link_lladdr neigh_lladdr af rule = do
    tcr ← obj_target_prepare_rule flags vlan_id link_lladdr neigh_lladdr af
    ok (set_if_prepared target tcr rule)

  -- A rule that there is changes with its neighbour, and goes where none can be prepared.
  abbrev pub set_changed : (target : ℕ) → Option TcRule → Option ℕ → Option ℕ × List Call
  set_changed target none rule = obj_target_set_rule target none rule
  set_changed target (some tcr) none = (none, [])
  set_changed target (some tcr) (some p) =
      if is_other (mem p).wanted tcr
      then obj_target_set_rule target (some tcr) (some p)
      else (some p, [])

  unfoldable pub obj_target_neigh_update :
      (target vlan_id : ℕ) (link_lladdr neigh_lladdr : List ℕ) (af : ℕ)
      → (rule : Option ℕ) → Ret (Option ℕ × List Call)
  unfolding obj_target_set_rule
  obj_target_neigh_update target vlan_id link_lladdr neigh_lladdr af rule = do
    tcr ← obj_target_prepare_rule flags vlan_id link_lladdr neigh_lladdr af
    ok (set_changed target tcr rule)

-- What `obj_route_reap` gives back.
unfoldable pub reap_rules : RouteRules → List Call
reap_rules r = unref_calls r.rule ++ unref_calls r.target_rule
