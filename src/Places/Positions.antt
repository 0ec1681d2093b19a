-- ===== src/Places/Positions.antt =====
-- The positional tree of src/obj_rule.c keeps its rules in the order of their places.
use flower_route.Base.{
  ℕ, ◌<◌, ◌≤◌, ◌^◌, ◌≡◌, refl, ap, none, Ordering-cases, ◌∙◌, sym, inl, inr, Ordering, then_by,
  List, [], ◌∷◌, All, arith,
}
use Prim.Native.Nat.{compare}
use flower_route.Keys.{Position, position_cmp}
use flower_route.Keys.Orders.{ChainBelow31, position_cmp_lem, position_cmp-IsOrder}
use flower_route.Search.Order.{IsSorted, AllFit, Above}
use flower_route.Rules.{Rule}
use flower_route.Places.{position, obj_rule_pos_lookup, obj_rule_find_available_prio}
use flower_route.Places.Prio.{Before, Ordered, Room, FreeOf, find_available_prio-fresh}
use flower_route.Search.{Tree, RbTree, in_order}
use flower_route.Search.Lists.{find}
use flower_route.Search.Lookup.{IsSearch, lookup-find}
use flower_route.Ret.{ok}

Before-compare :
    (a b : Rule)
    → then_by (compare a.chain_no b.chain_no) (compare a.prio b.prio) ≡ Ordering.lt
    → Before a b
Before-compare a b e = ground arith

Above-Before :
    (r : Rule) (rest : List Rule)
    → ChainBelow31 (position r)
    → AllFit position ChainBelow31 rest
    → Above position position_cmp (position r) rest
    → All (Before r) rest
Above-Before r [] fr f h = tt
Above-Before r (s ∷ rest) fr f h = (
  Before-compare r s (sym (position_cmp_lem (position r) (position s) fr f.0) ∙ h.0),
  Above-Before r rest fr f.1 h.1,
)

-- The order of the tree is the order of the chains, and of the priorities in a chain.
pub IsSorted-Ordered :
    (rules : List Rule)
    → AllFit position ChainBelow31 rules
    → IsSorted position position_cmp rules
    → Ordered rules
IsSorted-Ordered [] f s = tt
IsSorted-Ordered (r ∷ rest) f s = (Above-Before r rest f.0 f.1 s.0, IsSorted-Ordered rest f.1 s.1)

module _ (chain_no : ℕ) (hc : chain_no < 2 ^ 31) where
  find-FreeOf :
      (p : ℕ) (rules : List Rule)
      → AllFit position ChainBelow31 rules
      → All (FreeOf chain_no p) rules
      → find position position_cmp (record { chain_no = chain_no; prio = p }) rules ≡ none
  unfolding find
  find-FreeOf p [] f h = refl
  find-FreeOf p (r ∷ rest) f h =
      let key : Position = record { chain_no = chain_no; prio = p } in
      elim (Ordering-cases (position_cmp key (position r))) [
        | inl e ↦ rw (e, find) (find-FreeOf p rest f.1 h.1)
        | inr (inl e) ↦
            let same : key ≡ position r = position_cmp-IsOrder.eq_of key (position r) hc f.0 e in
            absurd (h.0 (sym (ap (λ q. q.chain_no) same)) (sym (ap (λ q. q.prio) same)))
        | inr (inr e) ↦ rw (e, find) (find-FreeOf p rest f.1 h.1)
      ]

  -- In a tree that is in order, with priorities of the chain below 65535, the search returns a 16-bit
  -- number of at least the minimum, and no rule of the tree has that place.
  pub find_available_prio-free_place :
      (rb : RbTree Rule) (min_prio : ℕ) (tree : Tree Rule)
      → IsSearch position position_cmp ChainBelow31 tree
      → All (Room chain_no) (in_order tree)
      → min_prio < 2 ^ 16
      → (p : ℕ) × (obj_rule_find_available_prio rb chain_no min_prio tree ≡ ok p)
        × (min_prio ≤ p)
        × (p < 2 ^ 16)
        × (obj_rule_pos_lookup chain_no p tree ≡ none)
  unfolding obj_rule_pos_lookup
  find_available_prio-free_place rb min_prio tree s room hm =
      let (p, found, least, small, free) =
        find_available_prio-fresh rb chain_no min_prio tree
          (IsSorted-Ordered (in_order tree) s.fit s.sorted) room hm in
      (
        p,
        found,
        least,
        small,
        lookup-find position position_cmp-IsOrder (record { chain_no = chain_no; prio = p }) tree hc
              s
            ∙ find-FreeOf p (in_order tree) s.fit free,
      )
