-- ===== src/Sched/Prefixes/Table.antt =====
-- src/sched_basic.c: what one configured prefix needs of the positional tree.
use flower_route.Base.{
  ℕ, suc, ◌+◌, ◌%◌, ◌^◌, ◌≤◌, ◌<◌, ◌≡◌, refl, ap, false, none, some, List, [], ◌∷◌, inl, inr,
  Bool-cases, Ordering-cases, if_equal, ltb, leb, ◌==◌, if◌then◌else◌, All-mono, length, arith,
}
use flower_route.Ret.{ok, ◌>>◌, assert}
use flower_route.TcRule.{TcRule}
use flower_route.Obj.{ObjMode}
use flower_route.Keys.{Position, position_cmp}
use flower_route.Keys.Orders.{ChainBelow31, position_cmp-IsOrder}
use flower_route.Search.{lookup, Tree, RbTree, in_order, insert}
use flower_route.Search.Order.{AllFit}
use flower_route.Search.Lists.{place}
use flower_route.Search.Lookup.{IsSearch}
use flower_route.Search.Insert.{insert-IsSearch, insert-in_order, lookup-insert, AllFit-place}
use flower_route.Rules.{
  tc_action_install, queued, want, Rule, Call, obj_rule_alloc, static, obj_rule_update_state,
}
use flower_route.Rules.Handlers.{obj_rule_static_want}
use flower_route.Places.{position, obj_rule_find_available_prio, prio_loop}

-- The priorities end below `b`.
abbrev pub Ends : ℕ → Position → Type 0
Ends b p = p.prio + 1 ≤ b

prio_loop_le :
    (chain_no min_prio b : ℕ)
    → b < 2 ^ 16
    → (rules : List Rule) → AllFit position (Ends b) rules
    → (ret : ℕ) → ret ≤ b
    → prio_loop chain_no min_prio ret rules ≤ b
unfolding prio_loop
prio_loop_le chain_no min_prio b hb [] h ret hr = hr
prio_loop_le chain_no min_prio b hb (r ∷ rest) h ret hr =
    let later = prio_loop_le chain_no min_prio b hb rest h.1 in
    let next = later ((r.prio + 1) % 2 ^ 16) (omega (arith, h.0)) in
    let same = later ret hr in ground arith

chosen_le :
    (ret min_prio b p : ℕ)
    → ret ≤ b
    → min_prio ≤ b
    → (do
      let ret' = if ltb ret min_prio then min_prio else ret
      assert (leb min_prio ret')
      ok ret')
      ≡ ok p
    → p ≤ b
chosen_le ret min_prio b p hr hm e = ground arith

pub find_available_prio_le :
    (rb : RbTree Rule) (chain_no min_prio b p : ℕ) (tree : Tree Rule)
    → min_prio ≤ b
    → b < 2 ^ 16
    → AllFit position (Ends b) (in_order tree)
    → obj_rule_find_available_prio rb chain_no min_prio tree ≡ ok p
    → p ≤ b
unfolding obj_rule_find_available_prio
find_available_prio_le rb chain_no min_prio b p tree hm hb h e =
    let bound = prio_loop_le chain_no min_prio b hb (in_order tree) h 0 (omega arith) in
    chosen_le (prio_loop chain_no min_prio 0 (in_order tree)) min_prio b p bound hm
      (rw (rb.nodes-in_order tree) at e)

length-place :
    (r : Rule) (rules : List Rule)
    → length (place position position_cmp r rules) ≡ suc (length rules)
unfolding place
length-place r [] = refl
length-place r (x ∷ rest) = elim (Ordering-cases (position_cmp (position r) (position x))) [
  | inl e ↦ rw (place, e)
  | inr (inl e) ↦ rw (place, e) (ap suc (length-place r rest))
  | inr (inr e) ↦ rw (place, e) (ap suc (length-place r rest))
]

module _ (image : TcRule → List ℕ) (mode : ObjMode) (pin : ℕ) where
  abbrev new_rule : (chain_no prio : ℕ) → TcRule → Rule
  new_rule chain_no prio tcr = record obj_rule_alloc {
    chain_no = chain_no;
    prio = prio;
    type = static;
    wanted = some tcr;
  }

  -- What `obj_rule_static_want` makes, and that it always returns.
  pub static_want_rule :
      (chain_no prio : ℕ) (tcr : TcRule)
      → (r : Rule) × (calls : List Call) × (obj_rule_static_want image mode pin chain_no prio tcr
          ≡ ok (r, calls))
        × (position r ≡ record { chain_no = chain_no; prio = prio })
        × (r.wanted ≡ some tcr)
        × (r.have_pos ≡ false)
  unfolding obj_rule_static_want obj_rule_update_state
  static_want_rule chain_no prio tcr =
      let r = new_rule chain_no prio tcr in
      elim (Bool-cases (pin == 0)) [
        | inl e ↦ (r, [], rw (e), refl, refl, refl)
        | inr e ↦ elim (Bool-cases (ltb pin 2)) [
          | inl e' ↦ (record r { state = want }, [], rw (e, e'), refl, refl, refl)
          | inr e' ↦ (
            record r { state = queued; obj = record r.obj { refcnt = 1 } },
            tc_action_install chain_no prio (some tcr) ∷ [],
            rw (e, e'),
            refl,
            refl,
            refl,
          )
        ]
      ]

-- A positional tree that is in order, with priorities below `b`.
pub record IsPlaceTable (b : ℕ) (tree : Tree Rule) : Type 0 where
  pub search : IsSearch position position_cmp ChainBelow31 tree
  pub ends : AllFit position (Ends b) (in_order tree)

-- The tree `tree'` is `tree` with the rule `r` at a place that was free.
pub record Added (r : Rule) (tree tree' : Tree Rule) : Type 0 where
  pub one_more : length (in_order tree') ≡ suc (length (in_order tree))
  pub was_free : lookup position position_cmp (position r) tree ≡ none
  pub looked_up :
      (pos : Position)
      → ChainBelow31 pos
      → lookup position position_cmp pos tree'
        ≡ if_equal (position_cmp pos (position r)) (some r) (lookup position position_cmp pos tree)

pub insert-Added :
    (rb : RbTree Rule) (b : ℕ) (r : Rule) (tree : Tree Rule)
    → IsPlaceTable b tree
    → ChainBelow31 (position r)
    → r.prio ≤ b
    → lookup position position_cmp (position r) tree ≡ none
    → IsPlaceTable (b + 1) (insert position position_cmp rb r tree).0
      × Added r tree (insert position position_cmp rb r tree).0
insert-Added rb b r tree t hc hp free =
    let o = position_cmp-IsOrder in
    let order = (insert-in_order position o r hc rb tree t.search free).1 in
    let wider =
      All-mono (λ x. Ends b (position x)) (λ x. Ends (b + 1) (position x)) (λ x h. omega arith)
        (in_order tree) t.ends in
    (
      record {
        search = insert-IsSearch position o r hc rb tree t.search;
        ends = rw (order) (
            AllFit-place position position_cmp r (Ends (b + 1)) (in_order tree) (omega arith)
              wider);
      },
      record {
        one_more = rw (order) (length-place r (in_order tree));
        was_free = free;
        looked_up = λ pos fits. lookup-insert position o r hc rb tree t.search pos fits free;
      },
    )
