-- ===== src/Installs/Lifetime.antt =====
-- src/obj_route.c: the calls of a route from its first installation until it is reaped.
use flower_route.Base.{
  Bool, ℕ, ◌+◌, ◌≤◌, ◌≡◌, refl, true, Option, none, some, List, [], ◌∷◌, ◌++◌, inl, inr, Bool-cases,
  All, arith,
}
use flower_route.Ret.{Ret, ok, error, aborted, ◌>>=◌}
use flower_route.AfAddr.{AfAddr}
use flower_route.TcRule.{TcRule, tc_rule_init, tc_rule_set_type_and_traits}
use flower_route.Rules.{Rule, ok_state, ◌is◌}
use flower_route.Targets.{obj_route_prepare_rule}
use flower_route.Installs.{
  seconds, RouteRules, Call, points, taken, given, holds, is_other, install_rule, obj_route_install,
  reap_rules, unref_calls,
}
use flower_route.Installs.Owned.{
  Owned, Owned-append, Owned-unref_calls, Owned-first, Owned-replaced,
}
use flower_route.Installs.Balance.{
  seconds-append, taken-append, given-append, install_rule-Balanced, replace_rule-Balanced,
}

-- One call of `obj_route_install`: the memory of the rules, the rule of the target at that time, and
-- the one that `obj_rule_prime_request` returns.
pub record Notice : Type 0 where
  pub mem : ℕ → Rule
  pub target_rule : ℕ
  pub found : Bool
  pub made : ℕ

abbrev pub IsTold : Notice → Type 0
IsTold n = ((n.mem n.target_rule).state is ok_state) ≡ true

abbrev pub fresh : AfAddr → RouteRules
fresh dst = record { dst = dst; rule = none; target_rule = none }

-- The calls return, they use and give back only what has been taken, and in the end all that
-- was taken is given back but the second references.
abbrev pub Even : ℕ → Ret (List Call) → Type 0
Even p (ok calls) = Owned p 0 0 calls × (taken p calls ≡ given p calls + seconds p calls)
Even p error = ⊥
Even p aborted = ⊥

-- A route has no rule of a target without a rule of its own, nor the other way round.
abbrev Both : (rule target_rule : Option ℕ) → Type 0
Both none none = Unit
Both (some p) (some q) = Unit
Both none (some q) = ⊥
Both (some p) none = ⊥

abbrev Kept : ℕ → RouteRules → Ret (RouteRules × List Call) → Type 0
Kept p r (ok x) =
    (holds p r + taken p x.1 ≡ holds p x.0 + given p x.1 + seconds p x.1)
    × Both x.0.rule x.0.target_rule
    × ((t g : ℕ) → g + holds p r ≤ t → Owned p t g x.1)
Kept p r error = ⊥
Kept p r aborted = ⊥

Kept-append :
    (p : ℕ) (r r' : RouteRules) (calls : List Call) (y : Ret (RouteRules × List Call))
    → holds p r + taken p calls ≡ holds p r' + given p calls + seconds p calls
    → ((t g : ℕ) → g + holds p r ≤ t → Owned p t g calls)
    → Kept p r' y
    → Kept p r (y >>= λ (r'', later). ok (r'', calls ++ later))
Kept-append p r r' calls (ok (r'', later)) e o k = (
  omega (
    arith,
    k.0,
    taken-append p calls later,
    given-append p calls later,
    seconds-append p calls later,
  ),
  k.1,
  λ t g h.
      Owned-append p t g (taken p calls + t) (given p calls + g) calls later refl refl (o t g h)
        (k.2 _ _ (omega arith)),
)
Kept-append p r r' calls error e o k = absurd k
Kept-append p r r' calls aborted e o k = absurd k

Kept-bind :
    (p : ℕ) (r : RouteRules) (x : Ret (RouteRules × List Call))
    (f : RouteRules → Ret (RouteRules × List Call))
    → Kept p r x
    → ((r' : RouteRules) → Both r'.rule r'.target_rule → Kept p r' (f r'))
    → Kept p r (x >>= λ (r', calls). f r' >>= λ (r'', later). ok (r'', calls ++ later))
Kept-bind p r (ok (r', calls)) f k h = Kept-append p r r' calls (f r') k.0 k.2 (h r' k.1)
Kept-bind p r error f k h = absurd k
Kept-bind p r aborted f k h = absurd k

taken-unref_calls :
    (p : ℕ) (rule old : Option ℕ) → taken p (unref_calls rule ++ unref_calls old) ≡ 0
unfolding taken
taken-unref_calls p none none = refl
taken-unref_calls p none (some b) = refl
taken-unref_calls p (some a) none = refl
taken-unref_calls p (some a) (some b) = refl

seconds-unref_calls :
    (p : ℕ) (rule old : Option ℕ) → seconds p (unref_calls rule ++ unref_calls old) ≡ 0
unfolding seconds
seconds-unref_calls p none none = refl
seconds-unref_calls p none (some b) = refl
seconds-unref_calls p (some a) none = refl
seconds-unref_calls p (some a) (some b) = refl

given-unref_calls :
    (p : ℕ) (rule old : Option ℕ)
    → given p (unref_calls rule ++ unref_calls old) ≡ points p rule + points p old
unfolding given
given-unref_calls p none none = refl
given-unref_calls p none (some b) = omega arith
given-unref_calls p (some a) none = omega arith
given-unref_calls p (some a) (some b) = omega arith

Even-reaped :
    (p : ℕ) (dst : AfAddr) (x : Ret (RouteRules × List Call))
    → Kept p (fresh dst) x
    → Even p (x >>= λ (r, calls). ok (calls ++ reap_rules r))
unfolding reap_rules
Even-reaped p dst (ok (r, calls)) k = (
  Owned-append p 0 0 (taken p calls) (given p calls) calls (reap_rules r) (omega arith)
      (omega arith) (k.2 0 0 (omega arith))
      (Owned-unref_calls p _ _ r.rule r.target_rule (omega (arith, k.0))),
  omega (
    arith,
    k.0,
    taken-append p calls (reap_rules r),
    given-append p calls (reap_rules r),
    seconds-append p calls (reap_rules r),
    seconds-unref_calls p r.rule r.target_rule,
    taken-unref_calls p r.rule r.target_rule,
    given-unref_calls p r.rule r.target_rule,
  ),
)
Even-reaped p dst error k = absurd k
Even-reaped p dst aborted k = absurd k

module _ (image : TcRule → List ℕ) (flags : ℕ) where
  abbrev pub installs : List Notice → RouteRules → Ret (RouteRules × List Call)
  installs [] r = ok (r, [])
  installs (n ∷ ns) r = do
    (r', calls) ← obj_route_install image flags n.mem n.found (some n.made) (some n.target_rule) r
    (r'', later) ← installs ns r'
    ok (r'', calls ++ later)

  abbrev pub lifetime : List Notice → AfAddr → Ret (List Call)
  lifetime ns dst = do (r, calls) ← installs ns (fresh dst); ok (calls ++ reap_rules r)

  install_rule-Kept :
      (p : ℕ) (mem : ℕ → Rule) (found : Bool) (made : ℕ) (dst : AfAddr) (rule old : Option ℕ)
      (target_rule : ℕ) (tcr : TcRule)
      → Both rule old
      → Kept p
          (record { dst = dst; rule = rule; target_rule = old })
          (install_rule image flags mem found
            (some made)
            (record { dst = dst; rule = rule; target_rule = old })
            rule
            target_rule
            tcr)
  unfolding taken given seconds
  install_rule-Kept p mem found made dst none none t tcr b = (
    install_rule-Balanced image flags mem found (some made) p dst none none t tcr (λ e. refl),
    tt,
    λ t' g h. Owned-first p t' g t made tcr found (omega arith),
  )
  install_rule-Kept p mem found made dst none (some q) t tcr b = absurd b
  install_rule-Kept p mem found made dst (some q) none t tcr b = absurd b
  install_rule-Kept p mem found made dst (some rule) (some old) t tcr b =
      elim (Bool-cases (is_other image flags mem found (some made) (mem rule).wanted tcr)) [
        | inl e ↦ rw e (
          replace_rule-Balanced image flags mem found (some made) p dst rule (some old) t tcr,
          tt,
          λ t' g h. Owned-replaced p t' g rule old t made tcr found (omega arith),
        )
        | inr e ↦ rw e (omega arith, tt, λ t' g h. tt)
      ]

  obj_route_install-Kept :
      (p : ℕ) (n : Notice) (r : RouteRules)
      → IsTold n
      → Both r.rule r.target_rule
      → Kept p r (obj_route_install image flags n.mem n.found (some n.made) (some n.target_rule) r)
  unfolding obj_route_install obj_route_prepare_rule tc_rule_init tc_rule_set_type_and_traits
  obj_route_install-Kept p n r told b =
      rw told
        (install_rule-Kept p n.mem n.found n.made r.dst r.rule r.target_rule n.target_rule _ b)

  installs-Kept :
      (p : ℕ) (ns : List Notice) (r : RouteRules)
      → All IsTold ns
      → Both r.rule r.target_rule
      → Kept p r (installs ns r)
  unfolding taken given seconds
  installs-Kept p [] r told b = (omega arith, b, λ t g h. tt)
  installs-Kept p (n ∷ ns) r told b =
      Kept-bind p r _ (installs ns) (obj_route_install-Kept p n r told.0 b)
        (λ r' b'. installs-Kept p ns r' told.1 b')

  -- However often a fresh route is installed, where the rule of its target is in the state ok and each
  -- request for a rule is granted: no call fails an assertion, no rule is given back or queued while
  -- the route holds no reference on it, and when the route is reaped it has given back, on every rule,
  -- all references that were taken but the second one of each request that was granted from the lost
  -- and found tree.
  pub lifetime-Even :
      (p : ℕ) (ns : List Notice) (dst : AfAddr) → All IsTold ns → Even p (lifetime ns dst)
  lifetime-Even p ns dst told =
      Even-reaped p dst (installs ns (fresh dst)) (installs-Kept p ns (fresh dst) told tt)
