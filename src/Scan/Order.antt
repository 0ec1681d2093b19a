-- ===== src/Scan/Order.antt =====
-- src/scan.c: the scan always goes on. After each call it waits for exactly one answer, or for its
-- timer, and its assertions hold.
use flower_route.Base.{
  get_elem?-All, ℕ, zero, suc, ◌+◌, ◌≤◌, ◌≡◌, refl, sym, ◌∙◌, Bool, true, false, Option, none, some,
  List, [], ◌∷◌, ◌++◌, get_elem?, inl, inr, Bool-cases, arith,
}
use mathlib.Core.Path.{subst}
use flower_route.Ret.{Ret, ok, ◌>>=◌}
use flower_route.Scan.{
  after_open, chains, chain, ScanState, scan_new, run_helpers, dump_chains, dump_each_chain_init,
  dump_each_chain, scan_done, scan_wait, Request, break_loop, Scan, Event, conn_open, queue_init,
  obj_rule_remove_pin, queue_schedule, scan_helpers, rb_first, rb_next, run_helper, or_helpers,
  dump_chain, wait_events, scan_iteration, unless_returns, advance_scan,
}

-- The requests with a callback into the scan; `scan_break` has none.
abbrev pub asked_by : Event → List Request → List Request
asked_by (queue_schedule break_loop) rest = rest
asked_by (queue_schedule r) rest = r ∷ rest
asked_by _ rest = rest

abbrev pub asked : List Event → List Request
asked [] = []
asked (e ∷ es) = asked_by e (asked es)

-- `AN(s->next_chain)` holds in the state that has it.
abbrev pub Ready : ScanState → Option ℕ → Type 0
Ready dump_each_chain none = ⊥
Ready _ _ = Unit

-- How a call ends: with one request in the queue, or with the timer.
pub data Outcome (s : Scan) (events : List Event) : Type 0 where
  asks :
      (r : Request)
      → asked events ≡ r ∷ []
      → Ready s.state s.next_chain
      → s.timer_runs ≡ false
      → Outcome s events
  waits : asked events ≡ [] → s.state ≡ scan_wait → s.timer_runs ≡ true → Outcome s events

pub record Returns (m : Ret (Scan × List Event)) : Type 0 where
  pub s' : Scan
  pub events : List Event
  pub returns : m ≡ ok (s', events)
  pub outcome : Outcome s' events

helper_asked :
    (i : ℕ) (r : Request)
    → get_elem? scan_helpers i ≡ some r
    → asked_by (queue_schedule r) [] ≡ r ∷ []
helper_asked i r e =
    get_elem?-All (λ r. asked_by (queue_schedule r) [] ≡ r ∷ []) scan_helpers i r
      (refl, (refl, (refl, (refl, (refl, (refl, tt)))))) e

after_next : (next : Option ℕ) → Ready (or_helpers next dump_each_chain) next
after_next none = tt
after_next (some c) = tt

module _ (exit : Bool) (nodes : List ℕ) where
  abbrev goes_on : ℕ → ScanState → Scan → Ret (Scan × List Event)
  goes_on fuel st s =
      scan_iteration exit nodes st s >>= unless_returns (advance_scan exit nodes fuel)

  waits_at : (fuel : ℕ) (s : Scan) → s.state ≡ scan_wait → Returns (goes_on fuel scan_wait s)
  unfolding scan_iteration
  waits_at fuel s e = elim (Bool-cases exit) [
    | inl x ↦ record {
      s' = record s { timer_runs = true };
      events = wait_events exit;
      returns = refl;
      outcome = waits (rw (x)) e refl;
    }
    | inr x ↦ record {
      s' = record s { timer_runs = true };
      events = wait_events exit;
      returns = refl;
      outcome = waits (rw (x)) e refl;
    }
  ]

  -- A body that goes on with another iteration, and has asked for nothing.
  again_at :
      (fuel : ℕ) (s : Scan) (events : List Event)
      → ((later : List Event) → asked (events ++ later) ≡ asked later)
      → Returns (advance_scan exit nodes fuel s)
      → Returns (unless_returns (advance_scan exit nodes fuel) (false, (s, events)))
  again_at fuel s events none_asked r = record {
    s' = r.s';
    events = events ++ r.events;
    returns = rw (r.returns);
    outcome = elim r.outcome [
      | asks q e ready t ↦ asks q (none_asked r.events ∙ e) ready t
      | waits e w t ↦ waits (none_asked r.events ∙ e) w t
    ];
  }

  by_state :
      (fuel : ℕ) (s : Scan) (st : ScanState)
      → s.state ≡ st
      → Returns (goes_on fuel st s)
      → Returns (advance_scan exit nodes (suc fuel) s)
  unfolding advance_scan
  by_state fuel s st e r = subst (λ x. Returns (goes_on fuel x s)) (sym e) r

  done_at : (fuel : ℕ) (s : Scan) → Returns (goes_on (suc fuel) scan_done s)
  unfolding scan_iteration advance_scan
  done_at fuel s =
      let s' = record s { state = scan_wait } in
      again_at (suc fuel) s' (obj_rule_remove_pin ∷ []) (λ later. refl)
        (by_state fuel s' scan_wait refl (waits_at fuel s' refl))

  helper_at :
      (fuel : ℕ) (s : Scan) (o : Option Request)
      → get_elem? scan_helpers s.helper_idx ≡ o
      → s.state ≡ run_helpers
      → s.timer_runs ≡ false
      → Returns (unless_returns (advance_scan exit nodes (suc (suc fuel))) (run_helper s o))
  helper_at fuel s none h e t =
      let s' = record s { helper_idx = 0; state = scan_done } in
      again_at (suc (suc fuel)) s' [] (λ later. refl)
        (by_state (suc fuel) s' scan_done refl (done_at fuel s'))
  helper_at fuel s (some r) h e t = record {
    s' = record s { helper_idx = s.helper_idx + 1 };
    events = queue_schedule r ∷ [];
    returns = refl;
    outcome =
        asks r (helper_asked s.helper_idx r h) (subst (λ st. Ready st s.next_chain) (sym e) tt) t;
  }

  chain_at :
      (fuel : ℕ) (s : Scan) (o : Option ℕ)
      → Ready dump_each_chain o
      → s.timer_runs ≡ false
      → Returns (dump_chain nodes s o >>= unless_returns (advance_scan exit nodes fuel))
  chain_at fuel s none h t = absurd h
  chain_at fuel s (some c) h t =
      let next = rb_next nodes c in
      record {
        s' = record s {
          q_chain_no = c;
          next_chain = next;
          state = or_helpers next dump_each_chain;
        };
        events = queue_schedule (chain c) ∷ [];
        returns = refl;
        outcome = asks (chain c) refl (after_next next) t;
      }

  opened_at :
      (fuel : ℕ) (s : Scan) (o : Option Request)
      → get_elem? scan_helpers s.helper_idx ≡ o
      → s.timer_runs ≡ false
      → Returns (
          unless_returns
            (advance_scan exit nodes (suc (suc fuel)))
            (after_open (run_helper (record s { state = run_helpers }) o)))
  opened_at fuel s none h t =
      let s' = record s { helper_idx = 0; state = scan_done } in
      again_at (suc (suc fuel)) s' (conn_open ∷ queue_init ∷ []) (λ later. refl)
        (by_state (suc fuel) s' scan_done refl (done_at fuel s'))
  opened_at fuel s (some r) h t = record {
    s' = record s { state = run_helpers; helper_idx = s.helper_idx + 1 };
    events = conn_open ∷ queue_init ∷ queue_schedule r ∷ [];
    returns = refl;
    outcome = asks r (helper_asked s.helper_idx r h) tt t;
  }

  init_at :
      (fuel : ℕ) (s : Scan) (o : Option ℕ)
      → s.timer_runs ≡ false
      → Returns (
          unless_returns
            (advance_scan exit nodes (suc (suc (suc fuel))))
            (false, (record s { next_chain = o; state = or_helpers o dump_each_chain }, [])))
  unfolding scan_iteration
  init_at fuel s none t =
      let s' = record s { next_chain = none; state = run_helpers } in
      again_at (suc (suc (suc fuel))) s' [] (λ later. refl)
        (by_state (suc (suc fuel)) s' run_helpers refl (helper_at fuel s' _ refl refl t))
  init_at fuel s (some c) t =
      let s' = record s { next_chain = some c; state = dump_each_chain } in
      again_at (suc (suc (suc fuel))) s' [] (λ later. refl)
        (by_state (suc (suc fuel)) s' dump_each_chain refl
          (chain_at (suc (suc fuel)) s' (some c) tt t))

  -- The first iteration, in each of the seven states.
  first_at :
      (fuel : ℕ) (s : Scan) (st : ScanState)
      → s.state ≡ st
      → Ready st s.next_chain
      → s.timer_runs ≡ false
      → Returns (goes_on (suc (suc (suc fuel))) st s)
  unfolding scan_iteration
  first_at fuel s scan_new e h t = opened_at (suc fuel) s _ refl t
  first_at fuel s run_helpers e h t = helper_at (suc fuel) s _ refl e t
  first_at fuel s dump_chains e h t = record {
    s' = record s { state = dump_each_chain_init };
    events = queue_schedule chains ∷ [];
    returns = refl;
    outcome = asks chains refl tt t;
  }
  first_at fuel s dump_each_chain_init e h t = init_at fuel s (rb_first nodes) t
  first_at fuel s dump_each_chain e h t = chain_at (suc (suc (suc fuel))) s s.next_chain h t
  first_at fuel s scan_done e h t = done_at (suc (suc fuel)) s
  first_at fuel s scan_wait e h t = waits_at (suc (suc (suc fuel))) s e

  -- Four iterations are always enough: from a state whose assertion holds, with the timer off, the
  -- loop returns, and leaves either exactly one request with a callback in the queue, again in such
  -- a state, or no request and a running timer in the state that waits for it.
  pub advance_scan-Outcome :
      (fuel : ℕ) (s : Scan)
      → 4 ≤ fuel
      → Ready s.state s.next_chain
      → s.timer_runs ≡ false
      → (s' : Scan) × (events : List Event) × (advance_scan exit nodes fuel s ≡ ok (s', events))
        × Outcome s' events
  advance_scan-Outcome (suc (suc (suc (suc fuel)))) s h ready t =
      let r =
        by_state (suc (suc (suc fuel))) s s.state refl (first_at fuel s s.state refl ready t) in
      (r.s', r.events, r.returns, r.outcome)
  advance_scan-Outcome zero s h ready t = let bad : ⊥ = omega arith in absurd bad
  advance_scan-Outcome (suc zero) s h ready t = let bad : ⊥ = omega arith in absurd bad
  advance_scan-Outcome (suc (suc zero)) s h ready t = let bad : ⊥ = omega arith in absurd bad
  advance_scan-Outcome (suc (suc (suc zero))) s h ready t = let bad : ⊥ = omega arith in absurd bad
