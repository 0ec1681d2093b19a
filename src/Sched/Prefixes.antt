-- ===== src/Sched/Prefixes.antt =====
-- src/sched_basic.c: `sched_basic_place_prefix_list`, the rules for the configured prefixes.
pub mod Table
pub mod Placed
use flower_route.Base.{
  ℕ, suc, ◌+◌, ◌^◌, ◌≤◌, ◌<◌, ◌≡◌, refl, sym, ap, ◌∙◌, Bool, true, false, Option, none, some, List,
  [], ◌∷◌, ◌++◌, inl, inr, Bool-cases, ltb, ◌==◌, is_some, not, if◌then◌else◌, All, All-mono,
  length, arith,
}
use flower_route.Ret.{Ret, ok, error, aborted, assert, ◌>>=◌, ◌>>◌}
use flower_route.AfAddr.{AfAddr}
use flower_route.TcRule.{TcRule}
use flower_route.Obj.{ObjMode}
use flower_route.Search.{Tree, RbTree, in_order}
use flower_route.Rules.{Rule, Call, obj_rule_alloc, static}
use flower_route.Rules.Handlers.{obj_rule_static_want}
use flower_route.Places.{
  position, get_af_chain, obj_rule_find_available_prio, obj_rule_pos_lookup, obj_rule_pos_insert,
}
use flower_route.Onload.{Prefix, PrefixList, lookup_prefix_list}
use flower_route.Sched.{request_onload_rule}

-- `pfx->addr`; the padding between the mask and the address is left out.
abbrev pub prefix_addr : Prefix → AfAddr
prefix_addr p = fields p.bytes
  where
    fields : List ℕ → AfAddr
    fields (a ∷ m ∷ _ ∷ _ ∷ addr) = record { af = a; mask_len = m; addr = addr }
    fields bs = record { af = 0; mask_len = 0; addr = [] }

module _ (image : TcRule → List ℕ) (mode : ObjMode) (pin : ℕ) (rb : RbTree Rule) (flags : ℕ) where
  -- `obj_rule_static_want` on the positional tree, with the calls so far.
  unfoldable pub static_want_at :
      (chain_no prio : ℕ) → TcRule → Tree Rule × List Call → Ret (Tree Rule × List Call)
  static_want_at chain_no prio tcr (tree, calls) = do
    assert (not (is_some (obj_rule_pos_lookup chain_no prio tree)))
    (r, more) ← obj_rule_static_want image mode pin chain_no prio tcr
    (tree', _) ← obj_rule_pos_insert rb r tree
    ok (tree', calls ++ more)

  -- The body of the loop.
  unfoldable pub place_prefix :
      (base_prio : ℕ) → Prefix → Tree Rule × List Call → Ret (Tree Rule × List Call)
  place_prefix base_prio pfx (tree, calls) = do
    chain_no ← get_af_chain (prefix_addr pfx).af
    prio ← obj_rule_find_available_prio rb chain_no base_prio tree
    tcr ← request_onload_rule flags (prefix_addr pfx)
    static_want_at chain_no prio tcr (tree, calls)

  unfoldable pub place_prefixes :
      (base_prio : ℕ) → List Prefix → Tree Rule × List Call → Ret (Tree Rule × List Call)
  place_prefixes base_prio [] s = ok s
  place_prefixes base_prio (pfx ∷ pfxs) s =
      place_prefix base_prio pfx s >>= place_prefixes base_prio pfxs

  unfoldable pub sched_basic_place_prefix_list :
      (base_prio : ℕ)
      → List ℕ
      → List PrefixList
      → Tree Rule × List Call
      → Ret (Tree Rule × List Call)
  sched_basic_place_prefix_list base_prio list_name lists s =
      elim (lookup_prefix_list list_name lists) [
        | none ↦ ok s
        | some l ↦ place_prefixes base_prio l.entries s
      ]
