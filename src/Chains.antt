-- ===== src/Chains.antt =====
-- The chain table of src/nl_filter.c: the chains of the interface that the kernel has reported or
-- that the scheduler has reserved. The static `chain_tree` is an argument and a result; `none` is
-- a failed assertion.
pub mod Table
pub mod Available
pub mod Reserve
mod Tests
use flower_route.Base.{
  ℕ, ◌+◌, ◌%◌, ◌^◌, ◌≡◌, Ordering, Bool, true, false, ◌||◌, Option, none, some, List, [], ◌∷◌, ltb,
  leb, ◌==◌, if◌then◌else◌,
}
use flower_route.Base.Int.{sign}
use flower_route.Keys.{u32cmp}
use flower_route.Search.{Tree, leaf, RbTree, lookup, insert, update}

-- `CHAIN_FLAG_UNKNOWN` is the value that `fr_malloc` leaves.
pub data ChainState : Type 0 where
  unknown present reserved : ChainState

pub record Chain : Type 0 where
  pub chain_no : ℕ
  pub state : ChainState

abbrev pub chain_key : Chain → ℕ
chain_key ch = ch.chain_no

abbrev pub chain_cmp : ℕ → ℕ → Ordering
chain_cmp a b = sign (u32cmp a b)

unfoldable pub chain_lookup : ℕ → Tree Chain → Option Chain
chain_lookup chain_no t = lookup chain_key chain_cmp chain_no t

unfoldable pub chain_insert : RbTree Chain → Chain → Tree Chain → Tree Chain × Bool
chain_insert rb ch t = insert chain_key chain_cmp rb ch t

-- `ch->state = st`, through the pointer that a lookup returned.
unfoldable pub set_state : ℕ → ChainState → Tree Chain → Tree Chain
set_state chain_no st t = update chain_key chain_cmp chain_no (λ ch. record ch { state = st }) t

-- `next = ch->chain_no + 1`, a `uint32_t`.
abbrev pub next_chain_no : ℕ → ℕ
next_chain_no c = (c + 1) % 2 ^ 32

-- The loop over the chains in order, from the value that `ret` has.
unfoldable pub available_loop : ℕ → ℕ → List Chain → ℕ
available_loop min_chain_no ret [] = ret
available_loop min_chain_no ret (ch ∷ rest) = elim (ch.chain_no == ret || ltb ret min_chain_no) [
  | true ↦ available_loop min_chain_no (next_chain_no ch.chain_no) rest
  | false ↦ elim (leb min_chain_no ret) [
    | true ↦ ret
    | false ↦ available_loop min_chain_no ret rest
  ]
]

-- `if (ret < min_chain_no) ret = min_chain_no;`
abbrev pub at_least : ℕ → ℕ → ℕ
at_least min_no ret = if ltb ret min_no then min_no else ret

module _ (rb : RbTree Chain) where
  unfoldable pub filter_got_chain : ℕ → Tree Chain → Option (Tree Chain)
  unfolding chain_lookup chain_insert set_state
  filter_got_chain chain_no t = elim (chain_lookup chain_no t) [
    | some _ ↦ some (set_state chain_no present t)
    | none ↦
        let (t', ret) = chain_insert rb (record { chain_no = chain_no; state = unknown }) t in
        if ret then some (set_state chain_no present t') else none
  ]

  unfoldable pub filter_reserve_chain : ℕ → Tree Chain → Option (Tree Chain)
  unfolding filter_got_chain
  filter_reserve_chain chain_no t = elim (filter_got_chain chain_no t) [
    | none ↦ none
    | some t' ↦ elim (chain_lookup chain_no t') [
      | none ↦ none
      | some _ ↦ some (set_state chain_no reserved t')
    ]
  ]

  abbrev pub available_chain_no : ℕ → Tree Chain → ℕ
  available_chain_no min_chain_no t =
      at_least min_chain_no (available_loop min_chain_no 0 (rb.nodes t))

  -- The number that is returned, and the table with it reserved.
  unfoldable pub filter_find_available_chain_no : ℕ → Tree Chain → Option (ℕ × Tree Chain)
  unfolding filter_reserve_chain available_loop
  filter_find_available_chain_no min_chain_no t =
      let ret = available_chain_no min_chain_no t in
      elim (filter_reserve_chain ret t) [ none ↦ none | some t' ↦ some (ret, t') ]
