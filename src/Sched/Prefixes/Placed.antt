-- ===== src/Sched/Prefixes/Placed.antt =====
-- src/sched_basic.c: each configured prefix gets a rule at a place of its own.
use mathlib.Core.Path.{subst}
use flower_route.Base.{
  ℕ, ◌+◌, ◌^◌, ◌≤◌, ◌<◌, ◌≡◌, refl, sym, ap, ◌∙◌, true, false, none, some, List, [], ◌∷◌, ◌++◌, inl,
  inr, Ordering-cases, All, All-mono, length, arith,
}
use flower_route.Ret.{ok}
use flower_route.TcRule.{TcRule}
use flower_route.Obj.{ObjMode}
use flower_route.Keys.{Position, position_cmp}
use flower_route.Keys.Orders.{ChainBelow31, position_cmp-IsOrder}
use flower_route.Search.{lookup, Tree, RbTree, in_order, insert}
use flower_route.Rules.{Rule, Call}
use flower_route.Rules.Handlers.{obj_rule_static_want}
use flower_route.Places.{
  position, get_af_chain, obj_rule_find_available_prio, obj_rule_pos_lookup, obj_rule_pos_insert,
}
use flower_route.Places.Prio.{Room}
use flower_route.Places.Positions.{find_available_prio-free_place}
use flower_route.Onload.{Prefix}
use flower_route.Onload.Bounds.{InFamily, prefix4, prefix6}
use flower_route.Sched.{request_onload_rule}
use flower_route.Sched.Prefixes.Table.{
  Ends, find_available_prio_le, static_want_rule, IsPlaceTable, Added, insert-Added,
}
use flower_route.Sched.Prefixes.{prefix_addr, static_want_at, place_prefix, place_prefixes}

-- The rule `r` of a prefix: it is what `request_onload_rule` asks for, in the family's chain, at a
-- priority of at least the one that was given.
pub record IsRuleOf (flags base_prio : ℕ) (pfx : Prefix) (r : Rule) : Type 0 where
  pub tcr : TcRule
  pub requested : request_onload_rule flags (prefix_addr pfx) ≡ ok tcr
  pub wants : r.wanted ≡ some tcr
  pub chain : get_af_chain (prefix_addr pfx).af ≡ ok r.chain_no
  pub small_chain : r.chain_no ≤ 2
  pub least : base_prio ≤ r.prio

requests :
    (flags : ℕ) (pfx : Prefix)
    → (tcr : TcRule) × (request_onload_rule flags (prefix_addr pfx) ≡ ok tcr)
unfolding request_onload_rule
requests flags pfx = (_, refl)

family_chain :
    (pfx : Prefix)
    → InFamily pfx
    → (chain_no : ℕ) × (get_af_chain (prefix_addr pfx).af ≡ ok chain_no) × (chain_no ≤ 2)
unfolding get_af_chain
family_chain pfx (prefix4 m len) = (1, refl, omega arith)
family_chain pfx (prefix6 m len) = (2, refl, omega arith)

module _ (image : TcRule → List ℕ) (mode : ObjMode) (pin : ℕ) (rb : RbTree Rule) (flags : ℕ)
    (base_prio : ℕ) where
  place_prefix_ok :
      (pfx : Prefix) (tree : Tree Rule) (calls : List Call) (c p : ℕ) (tcr : TcRule) (r : Rule)
      (more : List Call)
      → get_af_chain (prefix_addr pfx).af ≡ ok c
      → obj_rule_find_available_prio rb c base_prio tree ≡ ok p
      → request_onload_rule flags (prefix_addr pfx) ≡ ok tcr
      → obj_rule_pos_lookup c p tree ≡ none
      → obj_rule_static_want image mode pin c p tcr ≡ ok (r, more)
      → r.have_pos ≡ false
      → place_prefix image mode pin rb flags base_prio pfx (tree, calls)
        ≡ ok
            ((insert position position_cmp rb (record r { have_pos = true }) tree).0, calls ++ more)
  unfolding place_prefix static_want_at obj_rule_pos_insert
  place_prefix_ok pfx tree calls c p tcr r more chain found requested free made fresh =
      rw chain (rw found (rw requested (rw free (rw made (rw fresh refl)))))

  place_prefix-Added :
      (b : ℕ) (pfx : Prefix) (tree : Tree Rule) (calls : List Call)
      → InFamily pfx
      → IsPlaceTable b tree
      → base_prio ≤ b
      → b + 1 < 2 ^ 16
      → (r : Rule) × (tree' : Tree Rule) × (calls' : List Call) × (place_prefix image mode pin rb
            flags base_prio pfx
            (tree, calls)
          ≡ ok (tree', calls'))
        × IsPlaceTable (b + 1) tree'
        × Added r tree tree'
        × IsRuleOf flags base_prio pfx r
  unfolding obj_rule_pos_lookup obj_rule_pos_insert
  place_prefix-Added b pfx tree calls f t hb small =
      let (tcr, requested) = requests flags pfx in
      let (c, chain, hc) = family_chain pfx f in
      let room =
        All-mono (λ x. Ends b (position x)) (Room c) (λ x h _. omega arith) (in_order tree)
          t.ends in
      let (p, found, least, fits, free) =
        find_available_prio-free_place c (omega arith) rb base_prio tree t.search room
          (omega arith) in
      let hp = find_available_prio_le rb c base_prio b p tree hb (omega arith) t.ends found in
      let (r, more, made, at, wants, fresh) = static_want_rule image mode pin c p tcr in
      let r' = record r { have_pos = true } in
      let in_chain : r.chain_no ≡ c = ap (λ q. q.chain_no) at in
      let at_prio : r.prio ≡ p = ap (λ q. q.prio) at in
      let free' : lookup position position_cmp (position r') tree ≡ none =
        ap (λ q. lookup position position_cmp q tree) at ∙ free in
      let (t', added) = insert-Added rb b r' tree t (omega arith) (omega arith) free' in
      (
        r',
        (insert position position_cmp rb r' tree).0,
        calls ++ more,
        place_prefix_ok pfx tree calls c p tcr r more chain found requested free made fresh,
        t',
        added,
        record {
          tcr = tcr;
          requested = requested;
          wants = wants;
          chain = chain ∙ ap ok (sym in_chain);
          small_chain = omega arith;
          least = omega arith;
        },
      )

  -- In the tree, a rule of the prefix.
  abbrev pub HasRule : Tree Rule → Prefix → Type 0
  HasRule tree pfx =
      (r : Rule) × IsRuleOf flags base_prio pfx r
      × (lookup position position_cmp (position r) tree ≡ some r)

  -- What is found in `tree` is found in `tree'`.
  abbrev pub Keeps : Tree Rule → Tree Rule → Type 0
  Keeps tree tree' =
      (pos : Position) (r : Rule)
      → ChainBelow31 pos
      → lookup position position_cmp pos tree ≡ some r
      → lookup position position_cmp pos tree' ≡ some r

  pub Added-Keeps :
      (r : Rule) (tree tree' : Tree Rule)
      → Added r tree tree'
      → ChainBelow31 (position r)
      → Keeps tree tree'
  Added-Keeps r tree tree' a hr pos x fits found =
      elim (Ordering-cases (position_cmp pos (position r))) [
        | inl e ↦ a.looked_up pos fits ∙ rw (e) found
        | inr (inl e) ↦
            let same = position_cmp-IsOrder.eq_of pos (position r) fits hr e in
            let bad : none ≡ some x =
              sym a.was_free ∙ sym (ap (λ q. lookup position position_cmp q tree) same) ∙ found in
            cc
        | inr (inr e) ↦ a.looked_up pos fits ∙ rw (e) found
      ]

  pub Added-found :
      (r : Rule) (tree tree' : Tree Rule)
      → Added r tree tree'
      → ChainBelow31 (position r)
      → lookup position position_cmp (position r) tree' ≡ some r
  Added-found r tree tree' a hr =
      let self = position_cmp-IsOrder.self (position r) hr in
      a.looked_up (position r) hr ∙ rw (self)

  -- For prefixes of the two families, a positional tree in order, and priorities from the base on
  -- that leave room for one more of each prefix, the loop returns without a failed assertion. In
  -- the tree afterwards every prefix has its rule, there is exactly one rule more for each prefix,
  -- and the rules from before are found at their places.
  pub place_prefixes-HasRule :
      (b : ℕ) (pfxs : List Prefix) (tree : Tree Rule) (calls : List Call)
      → All InFamily pfxs
      → IsPlaceTable b tree
      → base_prio ≤ b
      → b + length pfxs < 2 ^ 16
      → (tree' : Tree Rule) × (calls' : List Call) × (place_prefixes image mode pin rb flags
            base_prio pfxs
            (tree, calls)
          ≡ ok (tree', calls'))
        × IsPlaceTable (b + length pfxs) tree'
        × (length (in_order tree') ≡ length (in_order tree) + length pfxs)
        × Keeps tree tree'
        × All (HasRule tree') pfxs
  unfolding place_prefixes
  place_prefixes-HasRule b [] tree calls f t hb small =
      let same : b ≡ b + 0 = omega arith in
      (
        tree,
        calls,
        refl,
        subst (λ n. IsPlaceTable n tree) same t,
        omega arith,
        λ pos r fits found. found,
        tt,
      )
  place_prefixes-HasRule b (pfx ∷ pfxs) tree calls f t hb small =
      let (r, tree1, calls1, step, t1, added, of) =
        place_prefix-Added b pfx tree calls f.0 t hb (omega arith) in
      let (tree', calls', steps, t', n, keeps, rules) =
        place_prefixes-HasRule (b + 1) pfxs tree1 calls1 f.1 t1 (omega arith) (omega arith) in
      let same : b + 1 + length pfxs ≡ b + length (pfx ∷ pfxs) = omega arith in
      let hr : ChainBelow31 (position r) = omega (arith, of.small_chain) in
      (
        tree',
        calls',
        rw step steps,
        subst (λ n. IsPlaceTable n tree') same t',
        omega (arith, n, added.one_more),
        λ pos x fits found. keeps pos x fits (Added-Keeps r tree tree1 added hr pos x fits found),
        ((r, of, keeps (position r) r hr (Added-found r tree tree1 added hr)), rules),
      )
