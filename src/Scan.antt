-- ===== src/Scan.antt =====
-- src/scan.c: the state machine that dumps the kernel's tables, as a client of the request queue.
-- A call returns the scan and what it did, in order. The chain table is the list of its numbers in
-- order, as `rb_first` and `rb_next` visit them, and `config->exit_after_first_sync` is an argument.
pub mod Order
pub mod Reach
pub mod Cycle
mod Tests
use flower_route.Base.{
  ℕ, zero, suc, ◌+◌, Bool, true, false, Option, none, some, List, [], ◌∷◌, ◌++◌, get_elem?, ◌==◌,
  if◌then◌else◌,
}
use flower_route.Ret.{Ret, ok, error, aborted, ◌>>=◌}

-- `enum scan_state`.
pub data ScanState : Type 0 where
  scan_new run_helpers dump_chains dump_each_chain_init dump_each_chain scan_done scan_wait :
      ScanState

-- What the scan asks the queue for: the functions of `scan_helpers`, `scan_chains`, `scan_chain` and
-- `scan_break`.
pub data Request : Type 0 where
  filters links neigh4 neigh6 route4 route6 chains break_loop : Request
  chain : (q_chain_no : ℕ) → Request

-- `struct scan`; `next_chain` is the number of the chain that the pointer is in.
pub record Scan : Type 0 where
  pub state : ScanState
  pub helper_idx : ℕ
  pub next_chain : Option ℕ
  pub q_chain_no : ℕ
  pub timer_runs : Bool

-- The calls that leave the machine.
pub data Event : Type 0 where
  conn_open queue_init obj_rule_remove_pin timer_again : Event
  queue_schedule : Request → Event

-- `scan_helpers` up to its NULL.
abbrev pub scan_helpers : List Request
scan_helpers = filters ∷ links ∷ neigh4 ∷ neigh6 ∷ route4 ∷ route6 ∷ []

abbrev pub rb_first : List ℕ → Option ℕ
rb_first [] = none
rb_first (c ∷ _) = some c

-- The chain after chain `c`.
abbrev pub rb_next : List ℕ → ℕ → Option ℕ
rb_next [] c = none
rb_next (x ∷ rest) c = if x == c then rb_first rest else rb_next rest c

-- Whether the loop's body returns, the scan, and the calls.
abbrev pub Iteration : Type 0
Iteration = Bool × (Scan × List Event)

abbrev pub run_helper : Scan → Option Request → Iteration
run_helper s none = (false, (record s { helper_idx = 0; state = scan_done }, []))
run_helper s (some helper) =
    (true, (record s { helper_idx = s.helper_idx + 1 }, queue_schedule helper ∷ []))

-- `nl_conn_open` and `queue_init` come first.
abbrev pub after_open : Iteration → Iteration
after_open (returns, (s, events)) = (returns, (s, conn_open ∷ queue_init ∷ events))

abbrev pub or_helpers : Option ℕ → ScanState → ScanState
or_helpers none next = run_helpers
or_helpers (some c) next = next

-- `AN(s->next_chain)`.
abbrev pub dump_chain : List ℕ → Scan → Option ℕ → Ret Iteration
dump_chain nodes s none = aborted
dump_chain nodes s (some c) =
    let next = rb_next nodes c in
    ok (
      true,
      (
        record s { q_chain_no = c; next_chain = next; state = or_helpers next dump_each_chain },
        queue_schedule (chain c) ∷ [],
      ),
    )

abbrev pub unless_returns : (Scan → Ret (Scan × List Event)) → Iteration → Ret (Scan × List Event)
unless_returns again (true, result) = ok result
unless_returns again (false, (s, events)) = do (s', later) ← again s; ok (s', events ++ later)

-- `AN(s->state == SCAN_WAIT)`.
abbrev pub from_wait : ScanState → Scan → Ret Scan
from_wait scan_wait s = ok (record s { state = run_helpers; timer_runs = false })
from_wait _ s = aborted

abbrev pub wait_events : (exit_after_first_sync : Bool) → List Event
wait_events exit_after_first_sync =
    (if exit_after_first_sync then queue_schedule break_loop ∷ [] else []) ++ timer_again ∷ []

module _ (exit_after_first_sync : Bool) (nodes : List ℕ) where
  -- The switch.
  unfoldable pub scan_iteration : ScanState → Scan → Ret Iteration
  scan_iteration scan_new s = ok (
      after_open
        (run_helper (record s { state = run_helpers }) (get_elem? scan_helpers s.helper_idx)))
  scan_iteration run_helpers s = ok (run_helper s (get_elem? scan_helpers s.helper_idx))
  scan_iteration dump_chains s =
      ok (true, (record s { state = dump_each_chain_init }, queue_schedule chains ∷ []))
  scan_iteration dump_each_chain_init s =
      let first = rb_first nodes in
      ok (false, (record s { next_chain = first; state = or_helpers first dump_each_chain }, []))
  scan_iteration dump_each_chain s = dump_chain nodes s s.next_chain
  scan_iteration scan_done s =
      ok (false, (record s { state = scan_wait }, obj_rule_remove_pin ∷ []))
  scan_iteration scan_wait s =
      ok (true, (record s { timer_runs = true }, wait_events exit_after_first_sync))

  -- The loop, on fuel; without fuel it is an error.
  unfoldable pub advance_scan : ℕ → Scan → Ret (Scan × List Event)
  unfolding scan_iteration
  advance_scan zero s = error
  advance_scan (suc fuel) s = scan_iteration s.state s >>= unless_returns (advance_scan fuel)

  unfoldable pub scan_timeout_cb : ℕ → Scan → Ret (Scan × List Event)
  unfolding advance_scan
  scan_timeout_cb fuel s = from_wait s.state s >>= advance_scan fuel

  -- `advance_scan_cb`, whatever the kernel's answer was.
  unfoldable pub advance_scan_cb : ℕ → (nl_errno : ℕ) → Scan → Ret (Scan × List Event)
  unfolding advance_scan
  advance_scan_cb fuel nl_errno s = advance_scan fuel s

-- What the queue's call of the request does to the scan, beside the message that it sends.
abbrev pub execute : Request → Scan → Scan
execute filters s = record s { state = dump_chains }
execute _ s = s

-- `scan_init` makes a zeroed object and advances it.
abbrev pub scan_init : Scan
scan_init = record {
  state = scan_new;
  helper_idx = 0;
  next_chain = none;
  q_chain_no = 0;
  timer_runs = false;
}
