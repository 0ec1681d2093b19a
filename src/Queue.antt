-- ===== src/Queue.antt =====
-- src/nl_queue.c: the requests to the kernel, one at a time. The list from `Q.head` on is a list,
-- whose last item is `Q.tail`; the connection is left out. What a callback does to the queue is a
-- parameter: whether `execute` sends a request, and what `execute` and `completed` schedule.
-- `queue_schedule`, the completion and the loop call each other, on fuel.
pub mod Order
mod Tests
use flower_route.Base.{
  ℕ, zero, suc, ◌≡◌, Bool, true, false, not, ◌&&◌, List, [], ◌∷◌, ◌++◌, if◌then◌else◌,
}
use flower_route.Ret.{Ret, ok, error, aborted, assert, ◌>>=◌, ◌>>◌}

-- `enum queue_item_state`.
pub data ItemState : Type 0 where
  new sent done : ItemState

abbrev pub is_new : ItemState → Bool
is_new new = true
is_new _ = false

abbrev pub is_sent : ItemState → Bool
is_sent sent = true
is_sent _ = false

-- `struct queue_item`; `data` stands for the callbacks too.
pub record Item : Type 0 where
  pub data_no : ℕ
  pub state : ItemState

-- `struct queue`, and what has been asked for and executed so far, in order.
pub record Queue : Type 0 where
  pub items : List Item
  pub is_busy : Bool
  pub has_sent_request : Bool
  pub asked : List ℕ
  pub executed : List ℕ

pub record Callbacks : Type 0 where
  pub sends : ℕ → Bool
  pub execute_schedules : ℕ → List ℕ
  pub completed_schedules : ℕ → List ℕ

abbrev pub is_empty : List Item → Bool
is_empty [] = true
is_empty (_ ∷ _) = false

abbrev pub fresh_item : ℕ → Item
fresh_item d = record { data_no = d; state = new }

-- The first half of `queue_schedule`.
abbrev pub append : ℕ → Queue → Queue
append d q = record q { items = q.items ++ fresh_item d ∷ []; asked = q.asked ++ d ∷ [] }

abbrev pub append_all : List ℕ → Queue → Queue
append_all [] q = q
append_all (d ∷ ds) q = append_all ds (append d q)

-- `Q.head != NULL && !Q.is_busy`
abbrev pub is_idle : Queue → Bool
is_idle q = not (is_empty q.items) && not q.is_busy

-- The calls that the recursion is about.
pub data Todo : Type 0 where
  queue_process_loop handle_queue_completed : Todo
  queue_schedule : ℕ → Todo

module _ (cb : Callbacks) where
  -- `execute` on the first item; the queue is busy while it runs.
  abbrev pub executes : Item → List Item → Queue → Queue
  executes i rest q = append_all (cb.execute_schedules i.data_no) (record q {
    items = record i { state = sent } ∷ rest;
    is_busy = true;
    has_sent_request = cb.sends i.data_no;
    executed = q.executed ++ i.data_no ∷ [];
  })

  unfoldable pub process_items : List Item → Queue → Ret Queue
  process_items [] q = aborted
  process_items (i ∷ rest) q = do assert (is_new i.state); ok (executes i rest q)

  unfoldable pub queue_process : Queue → Ret Queue
  unfolding process_items
  queue_process q = do assert (not q.is_busy); process_items q.items q

  abbrev pub popped : List Item → Ret (Item × List Item)
  popped [] = aborted
  popped (i ∷ rest) = do assert (is_sent i.state); ok (i, rest)

  abbrev pub schedule_all : (ℕ → Queue → Ret Queue) → List ℕ → Queue → Ret Queue
  schedule_all schedule [] q = ok q
  schedule_all schedule (d ∷ ds) q = schedule d q >>= schedule_all schedule ds

  unfoldable pub run : ℕ → Todo → Queue → Ret Queue
  unfolding queue_process
  run zero todo q = error
  run (suc fuel) (queue_schedule d) q = elim q.is_busy [
    | true ↦ ok (append d q)
    | false ↦ run fuel queue_process_loop (append d q)
  ]
  run (suc fuel) handle_queue_completed q = do
    assert q.is_busy
    (i, rest) ← popped q.items
    schedule_all (λ d. run fuel (queue_schedule d)) (cb.completed_schedules i.data_no)
        (record q { items = rest; is_busy = false })
  run (suc fuel) queue_process_loop q = elim (is_idle q) [
    | false ↦ ok q
    | true ↦ do
      q' ← queue_process q
      elim q'.has_sent_request [
        | true ↦ ok q'
        | false ↦ do q'' ← run fuel handle_queue_completed q'; run fuel queue_process_loop q''
      ]
  ]

  -- The kernel's answer to the request that was sent.
  unfoldable pub queue_is_complete : ℕ → Queue → Ret Queue
  unfolding run
  queue_is_complete fuel q = do
    q' ← run fuel handle_queue_completed q
    if is_idle q' then run fuel queue_process_loop q' else ok q'
