-- ===== src/Queue/Tests.antt =====
-- The queue at concrete requests.
use flower_route.Base.{◌≡◌, refl, true, [], ◌∷◌, ◌==◌, if◌then◌else◌}
use flower_route.Ret.{ok}
use flower_route.Queue.{new, sent, Queue, Callbacks, queue_schedule, run, queue_is_complete}
use flower_route.Queue.Order.{Good, queue_is_complete-Good, queue_schedule-Good}

-- The completion of request 1 asks for request 7.
abbrev callbacks : Callbacks
callbacks = record {
  sends = λ _. true;
  execute_schedules = λ _. [];
  completed_schedules = λ d. if d == 1 then 7 ∷ [] else [];
}

-- Request 1 is in flight, request 2 waits.
abbrev two : Queue
two = record {
  items = record { data_no = 1; state = sent } ∷ record { data_no = 2; state = new } ∷ [];
  is_busy = true;
  has_sent_request = true;
  asked = 1 ∷ 2 ∷ [];
  executed = 1 ∷ [];
}

two-Good : Good two
two-Good = record { shape = (refl, (refl, tt)); fifo = refl }

completion_runs :
    queue_is_complete callbacks 3 two
    ≡ ok (record {
      items = record { data_no = 2; state = sent } ∷ record { data_no = 7; state = new } ∷ [];
      is_busy = true;
      has_sent_request = true;
      asked = 1 ∷ 2 ∷ 7 ∷ [];
      executed = 1 ∷ 2 ∷ [];
    })
unfolding queue_is_complete
completion_runs = refl

queue_is_complete-Good_example :
    (q' : Queue) × (queue_is_complete callbacks 3 two ≡ ok q') × Good q'
queue_is_complete-Good_example = queue_is_complete-Good callbacks (λ d. refl) 0 two two-Good refl

queue_schedule-Good_example :
    (q' : Queue) × (run callbacks 2 (queue_schedule 5) two ≡ ok q') × Good q'
queue_schedule-Good_example = queue_schedule-Good callbacks (λ d. refl) 0 5 two two-Good
