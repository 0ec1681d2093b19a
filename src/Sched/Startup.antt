-- ===== src/Sched/Startup.antt =====
-- `sched_basic_initial_requests` of src/sched_basic.c: the rules that the daemon starts with.
pub mod Whole
use flower_route.Base.{
  ℕ, ◌+◌, ◌^◌, ◌≤◌, ◌<◌, ◌≡◌, ◌≢◌, refl, sym, ap, ◌∙◌, true, false, Ordering, none, some, List, [],
  ◌∷◌, ◌++◌, inl, inr, Option-cases, Ordering-cases, All, length, arith,
}
use flower_route.Ret.{Ret, ok, ◌>>=◌}
use flower_route.AfAddr.{AfAddr, af_inet, af_inet6}
use flower_route.TcRule.{TcRule}
use flower_route.Obj.{ObjMode}
use flower_route.Keys.{u32cmp, u16cmp, Position, position_cmp}
use flower_route.Keys.Orders.{ChainBelow31, position_cmp-IsOrder}
use flower_route.Search.{lookup, Tree, leaf, RbTree, in_order, insert}
use flower_route.Rules.{Rule, Call}
use flower_route.Places.{position, obj_rule_pos_lookup, obj_rule_pos_insert}
use flower_route.Codec.Pedit.{Family}
use flower_route.Codec.Wire.{family_addr, goto_rule, ttl_rule}
use flower_route.Onload.{PrefixList, lookup_prefix_list}
use flower_route.Onload.Store.{prefixes}
use flower_route.Onload.Bounds.{InFamily}
use flower_route.Sched.{request_af_goto_rule, request_ttl_check}
use flower_route.Sched.Prefixes.{static_want_at, sched_basic_place_prefix_list}
use flower_route.Sched.Prefixes.Table.{static_want_rule, IsPlaceTable, Added, insert-Added}
use flower_route.Sched.Prefixes.Placed.{
  HasRule, Keeps, Added-Keeps, Added-found, place_prefixes-HasRule,
}

-- "onload"
abbrev pub onload_name : List ℕ
onload_name = 111 ∷ 110 ∷ 108 ∷ 111 ∷ 97 ∷ 100 ∷ []

abbrev pub at : (chain_no prio : ℕ) → Position
at chain_no prio = record { chain_no = chain_no; prio = prio }

module _ (image : TcRule → List ℕ) (mode : ObjMode) (pin : ℕ) (rb : RbTree Rule) (flags : ℕ) where
  -- `in6` is what `inet_pton` writes for "2000::".
  unfoldable pub sched_basic_initial_requests :
      (in6 : List ℕ) → List PrefixList → Tree Rule × List Call → Ret (Tree Rule × List Call)
  sched_basic_initial_requests in6 lists s = do
    r1 ← request_af_goto_rule flags in6 af_inet 1
    s1 ← static_want_at image mode pin rb flags 0 1 r1 s
    r2 ← request_af_goto_rule flags in6 af_inet6 2
    s2 ← static_want_at image mode pin rb flags 0 2 r2 s1
    r3 ← request_ttl_check flags af_inet
    s3 ← static_want_at image mode pin rb flags 1 1 r3 s2
    r4 ← request_ttl_check flags af_inet6
    s4 ← static_want_at image mode pin rb flags 2 1 r4 s3
    sched_basic_place_prefix_list image mode pin rb flags 10 onload_name lists s4

  -- At the place, a rule that wants just that.
  abbrev pub HasStatic : Tree Rule → Position → TcRule → Type 0
  HasStatic tree pos tcr =
      (r : Rule) × (lookup position position_cmp pos tree ≡ some r) × (r.wanted ≡ some tcr)

  static_want_at-Added :
      (b c p : ℕ) (tcr : TcRule) (tree : Tree Rule) (calls : List Call)
      → IsPlaceTable b tree
      → c ≤ 2
      → p ≤ b
      → lookup position position_cmp (at c p) tree ≡ none
      → (r : Rule) × (tree' : Tree Rule) × (calls' : List Call) × (static_want_at image mode pin rb
            flags c p tcr
            (tree, calls)
          ≡ ok (tree', calls'))
        × IsPlaceTable (b + 1) tree'
        × Added r tree tree'
        × (position r ≡ at c p)
        × (r.wanted ≡ some tcr)
  unfolding static_want_at obj_rule_pos_lookup obj_rule_pos_insert
  static_want_at-Added b c p tcr tree calls t hc hp free =
      let (r, more, made, here, wants, unlinked) = static_want_rule image mode pin c p tcr in
      let r' = record r { have_pos = true } in
      let in_chain : r.chain_no ≡ c = ap (λ q. q.chain_no) here in
      let at_prio : r.prio ≡ p = ap (λ q. q.prio) here in
      let free' : lookup position position_cmp (position r') tree ≡ none =
        ap (λ q. lookup position position_cmp q tree) here ∙ free in
      let (t', added) = insert-Added rb b r' tree t (omega arith) (omega arith) free' in
      (
        r',
        (insert position position_cmp rb r' tree).0,
        calls ++ more,
        rw free (rw made (rw unlinked refl)),
        t',
        added,
        here,
        wants,
      )

  -- The tree `tree'` is `tree` with the rule at a place that was free.
  pub record Placed (b c p : ℕ) (tcr : TcRule) (tree tree' : Tree Rule) : Type 0 where
    pub table : IsPlaceTable (b + 1) tree'
    pub one_more : length (in_order tree') ≡ length (in_order tree) + 1
    pub keeps : Keeps image mode pin rb flags 10 tree tree'
    pub has : HasStatic tree' (at c p) tcr
    pub later :
        (pos : Position)
        → ChainBelow31 pos
        → position_cmp pos (at c p) ≡ Ordering.gt
        → lookup position position_cmp pos tree' ≡ lookup position position_cmp pos tree

  Added-Placed :
      (b c p : ℕ) (tcr : TcRule) (r : Rule) (tree tree' : Tree Rule)
      → c ≤ 2
      → IsPlaceTable (b + 1) tree'
      → Added r tree tree'
      → position r ≡ at c p
      → r.wanted ≡ some tcr
      → Placed b c p tcr tree tree'
  Added-Placed b c p tcr r tree tree' hc t added here wants =
      let in_chain : r.chain_no ≡ c = ap (λ q. q.chain_no) here in
      let hr : ChainBelow31 (position r) = omega arith in
      record {
        table = t;
        one_more = omega (arith, added.one_more);
        keeps = Added-Keeps image mode pin rb flags 10 r tree tree' added hr;
        has = (
          r,
          ap (λ q. lookup position position_cmp q tree') (sym here)
              ∙ Added-found image mode pin rb flags 10 r tree tree' added hr,
          wants,
        );
        later = λ pos fits gt.
            let above : position_cmp pos (position r) ≡ Ordering.gt =
              ap (position_cmp pos) here ∙ gt in
            added.looked_up pos fits ∙ rw above refl;
      }

  pub place_static :
      (b c p : ℕ) (tcr : TcRule) (tree : Tree Rule) (calls : List Call)
      → IsPlaceTable b tree
      → c ≤ 2
      → p ≤ b
      → lookup position position_cmp (at c p) tree ≡ none
      → (tree' : Tree Rule) × (calls' : List Call) × (static_want_at image mode pin rb flags c p tcr
            (tree, calls)
          ≡ ok (tree', calls'))
        × Placed b c p tcr tree tree'
  place_static b c p tcr tree calls t hc hp free =
      let (r, tree', calls', step, t', added, here, wants) =
        static_want_at-Added b c p tcr tree calls t hc hp free in
      (tree', calls', step, Added-Placed b c p tcr r tree tree' hc t' added here wants)

  pub HasStatic-Keeps :
      (tree tree' : Tree Rule) (c p : ℕ) (tcr : TcRule)
      → c ≤ 2
      → Keeps image mode pin rb flags 10 tree tree'
      → HasStatic tree (at c p) tcr
      → HasStatic tree' (at c p) tcr
  HasStatic-Keeps tree tree' c p tcr hc k (r, found, wants) =
      (r, k (at c p) r (omega arith) found, wants)

  -- 2000::/3
  abbrev pub unicast : List ℕ → AfAddr
  unicast in6 = record { af = af_inet6; mask_len = 3; addr = in6 }

  -- The two families go to their chains from chain 0, and each of these chains checks the TTL first.
  pub record HasFour (in6 : List ℕ) (tree : Tree Rule) : Type 0 where
    pub ip4 : HasStatic tree (at 0 1) (goto_rule (family_addr Family.v4) flags 1)
    pub ip6 : HasStatic tree (at 0 2) (goto_rule (unicast in6) flags 2)
    pub ttl4 : HasStatic tree (at 1 1) (ttl_rule Family.v4 flags)
    pub ttl6 : HasStatic tree (at 2 1) (ttl_rule Family.v6 flags)

  pub HasFour-Keeps :
      (in6 : List ℕ) (tree tree' : Tree Rule)
      → Keeps image mode pin rb flags 10 tree tree'
      → HasFour in6 tree
      → HasFour in6 tree'
  HasFour-Keeps in6 tree tree' k h = record {
    ip4 = HasStatic-Keeps tree tree' 0 1 _ (omega arith) k h.ip4;
    ip6 = HasStatic-Keeps tree tree' 0 2 _ (omega arith) k h.ip6;
    ttl4 = HasStatic-Keeps tree tree' 1 1 _ (omega arith) k h.ttl4;
    ttl6 = HasStatic-Keeps tree tree' 2 1 _ (omega arith) k h.ttl6;
  }
