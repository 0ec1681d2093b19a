-- ===== src/Scan/Tests.antt =====
-- The scan at concrete chain tables.
use flower_route.Base.{◌≡◌, refl, true, false, none, List, [], ◌∷◌, ◌++◌, map, arith}
use flower_route.Ret.{ok}
use flower_route.Scan.{
  Scan, Event, filters, chains, chain, queue_schedule, obj_rule_remove_pin, wait_events,
  run_helpers, advance_scan, scan_timeout_cb, scan_init,
}
use flower_route.Scan.Order.{Outcome, advance_scan-Outcome}
use flower_route.Scan.Reach.{World, Reach, starts, GoesOn, Reach-GoesOn}
use flower_route.Scan.Cycle.{with_answers, waiting, later_helpers, round_lem}

advance_scan-Outcome_example :
    (s' : Scan) × (events : List Event) × (advance_scan true (3 ∷ []) 4 scan_init ≡ ok (s', events))
    × Outcome s' events
advance_scan-Outcome_example = advance_scan-Outcome true (3 ∷ []) 4 scan_init (omega arith) tt refl

-- The world after `scan_init`.
abbrev first_world : World
first_world = record {
  scan = record scan_init { state = run_helpers; helper_idx = 1 };
  pending = filters ∷ [];
}

first_world-Reach : Reach false first_world
unfolding advance_scan
first_world-Reach = starts [] 4 first_world.scan _ (omega arith) refl

Reach-GoesOn_example : GoesOn false first_world
Reach-GoesOn_example = Reach-GoesOn false first_world-Reach

round_lem_example :
    with_answers false
      (0 ∷ 1 ∷ [])
      9
      (scan_timeout_cb false (0 ∷ 1 ∷ []) 4 (waiting false (0 ∷ 1 ∷ []) none 7))
    ≡ ok (
      waiting false (0 ∷ 1 ∷ []) none 1,
      map queue_schedule (filters ∷ chains ∷ chain 0 ∷ chain 1 ∷ later_helpers)
          ++ obj_rule_remove_pin ∷ wait_events false,
    )
round_lem_example = round_lem false (0 ∷ 1 ∷ []) none 7 ((omega arith, tt), (tt, tt))
