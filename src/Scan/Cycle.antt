-- ===== src/Scan/Cycle.antt =====
-- src/scan.c: one round of the scan, from the timer to the timer, while the chain table stays the
-- same.
use mathlib.Core.Path.{subst}
use flower_route.Base.{
  append_assoc, ==_refl, ℕ, zero, suc, ◌<◌, ◌≡◌, refl, sym, ap, ◌∙◌, Bool, true, false, Option,
  none, List, [], ◌∷◌, ◌++◌, map, All, ◌==◌, arith,
}
use flower_route.Ret.{Ret, ok, error, aborted, ◌>>=◌}
use flower_route.Scan.{
  dump_each_chain, scan_wait, Request, filters, links, neigh4, neigh6, route4, route6, chains,
  chain, Scan, Event, obj_rule_remove_pin, queue_schedule, rb_first, rb_next, or_helpers,
  wait_events, advance_scan, scan_timeout_cb, advance_scan_cb, execute,
}
use flower_route.Scan.Order.{asked}

-- The numbers of the chains in the order of the tree.
abbrev pub IsAscending : List ℕ → Type 0
IsAscending [] = Unit
IsAscending (c ∷ rest) = All (λ d. c < d) rest × IsAscending rest

above_last :
    (c : ℕ) (before : List ℕ) (d : ℕ) (rest : List ℕ)
    → All (λ x. c < x) (before ++ d ∷ rest)
    → c < d
above_last c [] d rest h = h.0
above_last c (b ∷ before) d rest h = above_last c before d rest h.1

rb_next-append :
    (before : List ℕ) (c : ℕ) (rest : List ℕ)
    → IsAscending (before ++ c ∷ rest)
    → rb_next (before ++ c ∷ rest) c ≡ rb_first rest
rb_next-append [] c rest h = rw (==_refl c)
rb_next-append (b ∷ before) c rest h =
    let below : b < c = above_last b before c rest h.0 in
    let other : (b == c) ≡ false = ground arith in rw (other) (rb_next-append before c rest h.1)

-- The requests that come after the chains.
abbrev pub later_helpers : List Request
later_helpers = links ∷ neigh4 ∷ neigh6 ∷ route4 ∷ route6 ∷ []

-- How many answers the chains and the later helpers take.
abbrev pub answers_of : List ℕ → ℕ
answers_of [] = 5
answers_of (c ∷ rest) = suc (answers_of rest)

no_more : (events : List Event) → events ++ [] ≡ events
no_more [] = refl
no_more (e ∷ events) = ap (λ l. e ∷ l) (no_more events)

bind_ok : (m : Ret (Scan × List Event)) → (do (s, events) ← m; ok (s, events)) ≡ m
bind_ok (ok p) = refl
bind_ok error = refl
bind_ok aborted = refl

-- A request before what a call asks for.
abbrev preceded : Request → Ret (Scan × List Event) → Ret (Scan × List Event)
preceded r m = do (s, later) ← m; ok (s, queue_schedule r ∷ later)

module _ (exit : Bool) (nodes : List ℕ) where
  -- What the scan does while the queue answers up to `n` of its requests, each in its turn.
  unfoldable pub answers : ℕ → Scan → List Request → Ret (Scan × List Event)
  answers zero s pending = ok (s, [])
  answers (suc n) s [] = ok (s, [])
  answers (suc n) s (r ∷ rest) = do
    (s', events) ← advance_scan_cb exit nodes 4 0 (execute r s)
    (s'', later) ← answers n s' (rest ++ asked events)
    ok (s'', events ++ later)

  -- A call and `n` answers.
  abbrev pub with_answers : ℕ → Ret (Scan × List Event) → Ret (Scan × List Event)
  with_answers n m = do
    (s', events) ← m
    (s'', later) ← answers n s' (asked events)
    ok (s'', events ++ later)

  abbrev dumping : List ℕ → ℕ → Scan
  dumping rest q = record {
    state = or_helpers (rb_first rest) dump_each_chain;
    helper_idx = 1;
    next_chain = rb_first rest;
    q_chain_no = q;
    timer_runs = false;
  }

  abbrev pub waiting : Option ℕ → ℕ → Scan
  waiting next q = record {
    state = scan_wait;
    helper_idx = 0;
    next_chain = next;
    q_chain_no = q;
    timer_runs = true;
  }

  -- The last chain of the list, or the one before it.
  abbrev pub last_chain : ℕ → List ℕ → ℕ
  last_chain q [] = q
  last_chain q (c ∷ rest) = last_chain c rest

  abbrev pub last_events : List Event
  last_events = obj_rule_remove_pin ∷ wait_events exit

  helpers_done :
      (fuel q : ℕ)
      → with_answers 5 (advance_scan exit nodes (suc fuel) (dumping [] q))
        ≡ ok (waiting none q, map queue_schedule later_helpers ++ last_events)
  unfolding answers advance_scan_cb
  helpers_done fuel q =
      ap (λ e. ok (waiting none q, map queue_schedule later_helpers ++ obj_rule_remove_pin ∷ e))
        (no_more (wait_events exit))

  chains_done :
      (fuel : ℕ) (before rest : List ℕ) (q : ℕ)
      → nodes ≡ before ++ rest
      → IsAscending nodes
      → with_answers (answers_of rest) (advance_scan exit nodes (suc fuel) (dumping rest q))
        ≡ ok (
          waiting none (last_chain q rest),
          map queue_schedule (map chain rest ++ later_helpers) ++ last_events,
        )
  unfolding answers advance_scan_cb
  chains_done fuel before [] q e h = helpers_done fuel q
  chains_done fuel before (c ∷ rest) q e h =
      let h' : IsAscending (before ++ c ∷ rest) = subst IsAscending e h in
      let next : rb_next nodes c ≡ rb_first rest =
        ap (λ l. rb_next l c) e ∙ rb_next-append before c rest h' in
      let e' : nodes ≡ (before ++ c ∷ []) ++ rest = e ∙ sym (append_assoc before (c ∷ []) rest) in
      rw (next) (
        ap (λ m. do (s, later) ← m; ok (s, queue_schedule (chain c) ∷ later))
          (chains_done 3 (before ++ c ∷ []) rest c e' h))

  -- In a round that starts with the timer, over a chain table in order that stays the same, the
  -- scan asks for the filters, for the chains, for each chain of the table in order and exactly
  -- once, for the links, the neighbours and the routes; then it lifts the pin of the rules and waits
  -- for the timer again, ready for the next round. One answer for each request is all it needs.
  pub round_lem :
      (next : Option ℕ) (q : ℕ)
      → IsAscending nodes
      → with_answers (suc (suc (answers_of nodes))) (scan_timeout_cb exit nodes 4 (waiting next q))
        ≡ ok (
          waiting none (last_chain q nodes),
          map queue_schedule (filters ∷ chains ∷ (map chain nodes ++ later_helpers)) ++ last_events,
        )
  unfolding answers advance_scan_cb scan_timeout_cb
  round_lem next q h =
      let dumped = chains_done 2 [] nodes q refl h in
      ap (λ m. preceded filters (preceded chains (with_answers (answers_of nodes) m)))
        (bind_ok (advance_scan exit nodes 3 (dumping nodes q)))
      ∙ ap (λ m. preceded filters (preceded chains m)) dumped
