-- ===== src/Queue/Order.antt =====
-- src/nl_queue.c: one request in flight, in the order of asking, for callbacks that send a request
-- whenever they execute.
use flower_route.Base.{
  ℕ, suc, ◌≡◌, refl, sym, ap, ◌∙◌, Bool, true, false, not, List, [], ◌∷◌, ◌++◌, All, inl, inr,
  Bool-cases, append_assoc, if◌then◌else◌, arith,
}
use mathlib.Core.Path.{subst}
use flower_route.Ret.{Ret, ok, assert, ◌>>=◌, ◌>>◌}
use flower_route.Queue.{
  ItemState, new, sent, done, Item, Queue, Callbacks, append, append_all, fresh_item, is_idle,
  is_empty, queue_schedule, handle_queue_completed, queue_process_loop, executes, process_items,
  queue_process, schedule_all, popped, run, queue_is_complete,
}

abbrev AllNew : List Item → Type 0
AllNew = All (λ i. i.state ≡ new)

-- The first item has been sent exactly while the queue is busy, and the others are new.
abbrev pub Shape : Bool → List Item → Type 0
Shape false items = AllNew items
Shape true [] = ⊥
Shape true (i ∷ rest) = (i.state ≡ sent) × AllNew rest

-- What has been asked for and not executed.
abbrev pub pick : ItemState → ℕ → List ℕ → List ℕ
pick new d ds = d ∷ ds
pick sent d ds = ds
pick done d ds = ds

abbrev pub waiting : List Item → List ℕ
waiting [] = []
waiting (i ∷ rest) = pick i.state i.data_no (waiting rest)

pub record Good (q : Queue) : Type 0 where
  pub shape : Shape q.is_busy q.items
  pub fifo : q.asked ≡ q.executed ++ waiting q.items

pick-append : (s : ItemState) (d : ℕ) (xs ys : List ℕ) → pick s d (xs ++ ys) ≡ pick s d xs ++ ys
pick-append new d xs ys = refl
pick-append sent d xs ys = refl
pick-append done d xs ys = refl

waiting-append :
    (items : List Item) (d : ℕ) → waiting (items ++ fresh_item d ∷ []) ≡ waiting items ++ d ∷ []
waiting-append [] d = refl
waiting-append (i ∷ rest) d =
    ap (pick i.state i.data_no) (waiting-append rest d)
    ∙ pick-append i.state i.data_no (waiting rest) (d ∷ [])

AllNew-append : (items : List Item) (d : ℕ) → AllNew items → AllNew (items ++ fresh_item d ∷ [])
AllNew-append [] d h = (refl, tt)
AllNew-append (i ∷ rest) d h = (h.0, AllNew-append rest d h.1)

Shape-append :
    (busy : Bool) (items : List Item) (d : ℕ)
    → Shape busy items
    → Shape busy (items ++ fresh_item d ∷ [])
Shape-append false items d h = AllNew-append items d h
Shape-append true [] d h = absurd h
Shape-append true (i ∷ rest) d h = (h.0, AllNew-append rest d h.1)

append-Good : (d : ℕ) (q : Queue) → Good q → Good (append d q)
append-Good d q g = record {
  shape = Shape-append q.is_busy q.items d g.shape;
  fifo =
      ap (λ t. t ++ d ∷ []) g.fifo
      ∙ append_assoc q.executed (waiting q.items) (d ∷ [])
      ∙ ap (λ t. q.executed ++ t) (sym (waiting-append q.items d));
}

append_all-Good : (ds : List ℕ) (q : Queue) → Good q → Good (append_all ds q)
append_all-Good [] q g = g
append_all-Good (d ∷ ds) q g = append_all-Good ds (append d q) (append-Good d q g)

append_all-flags :
    (ds : List ℕ) (q : Queue)
    → ((append_all ds q).is_busy ≡ q.is_busy)
      × ((append_all ds q).has_sent_request ≡ q.has_sent_request)
append_all-flags [] q = (refl, refl)
append_all-flags (d ∷ ds) q = append_all-flags ds (append d q)

module _ (cb : Callbacks) (sends : (d : ℕ) → cb.sends d ≡ true) where
  -- The queue after the first item has been executed.
  record Started (s : Ret Queue) : Type 0 where
    q' : Queue
    returns : s ≡ ok q'
    good : Good q'
    busy : q'.is_busy ≡ true
    has_sent : q'.has_sent_request ≡ true

  process_items-Started :
      (items : List Item) (q : Queue)
      → AllNew items
      → q.asked ≡ q.executed ++ waiting items
      → is_empty items ≡ false
      → Started (process_items cb items q)
  unfolding process_items
  process_items-Started [] q h f e = cc
  process_items-Started (i ∷ rest) q h f e =
      let start : Queue = record q {
        items = record i { state = sent } ∷ rest;
        is_busy = true;
        has_sent_request = cb.sends i.data_no;
        executed = q.executed ++ i.data_no ∷ [];
      } in
      let moved : waiting (i ∷ rest) ≡ i.data_no ∷ waiting rest =
        ap (λ s. pick s i.data_no (waiting rest)) h.0 in
      let flags = append_all-flags (cb.execute_schedules i.data_no) start in
      record {
        q' = executes cb i rest q;
        returns = rw h.0;
        good = append_all-Good (cb.execute_schedules i.data_no) start (record {
          shape = (refl, h.1);
          fifo =
              f
              ∙ ap (λ t. q.executed ++ t) moved
              ∙ sym (append_assoc q.executed (i.data_no ∷ []) (waiting rest));
        });
        busy = flags.0;
        has_sent = flags.1 ∙ sends i.data_no;
      }

  -- A call returned, and the queue is in order.
  pub record Runs (s : Ret Queue) : Type 0 where
    pub q' : Queue
    pub returns : s ≡ ok q'
    pub good : Good q'

  here : (q : Queue) → Good q → Runs (ok q)
  here q g = record { q' = q; returns = refl; good = g }

  loop-Runs : (fuel : ℕ) (q : Queue) → Good q → Runs (run cb (suc fuel) queue_process_loop q)
  unfolding run queue_process
  loop-Runs fuel q g = elim (Bool-cases (is_idle q)) [
    | inr e ↦ by_flag false e (here q g)
    | inl e ↦
        let free : q.is_busy ≡ false = ground arith in
        let some_item : is_empty q.items ≡ false = ground arith in
        by_flag true e (
          started free (
            process_items-Started q.items q (subst (λ b. Shape b q.items) free g.shape) g.fifo
              some_item))
  ]
    where
      -- After `execute`, by whether a request has been sent.
      goes_on : Queue → Bool → Ret Queue
      goes_on q' b = elim b [
        | true ↦ ok q'
        | false ↦ do q'' ← run cb fuel handle_queue_completed q'; run cb fuel queue_process_loop q''
      ]

      -- The loop by its test.
      looped : Bool → Ret Queue
      looped b = elim b [
        | false ↦ ok q
        | true ↦ do q' ← queue_process cb q; goes_on q' q'.has_sent_request
      ]

      by_flag : (b : Bool) → is_idle q ≡ b → Runs (looped b) → Runs (looped (is_idle q))
      by_flag b e r = subst (λ c. Runs (looped c)) (sym e) r

      started : q.is_busy ≡ false → Started (process_items cb q.items q) → Runs (looped true)
      started free s =
          let processed : queue_process cb q ≡ ok s.q' =
            ap (λ b. assert (not b) >> process_items cb q.items q) free ∙ s.returns in
          subst (λ m. Runs (m >>= λ q'. goes_on q' q'.has_sent_request)) (sym processed)
            (subst (λ b. Runs (goes_on s.q' b)) (sym s.has_sent) (here s.q' s.good))

  schedule-Runs :
      (fuel d : ℕ) (q : Queue) → Good q → Runs (run cb (suc (suc fuel)) (queue_schedule d) q)
  unfolding run
  schedule-Runs fuel d q g = elim (Bool-cases q.is_busy) [
    | inl e ↦ by_flag true e (here (append d q) (append-Good d q g))
    | inr e ↦ by_flag false e (loop-Runs fuel (append d q) (append-Good d q g))
  ]
    where
      scheduled : Bool → Ret Queue
      scheduled b = elim b [
        | true ↦ ok (append d q)
        | false ↦ run cb (suc fuel) queue_process_loop (append d q)
      ]

      by_flag : (b : Bool) → q.is_busy ≡ b → Runs (scheduled b) → Runs (scheduled q.is_busy)
      by_flag b e r = subst (λ c. Runs (scheduled c)) (sym e) r

  schedule_all-Runs :
      (fuel : ℕ) (ds : List ℕ) (q : Queue)
      → Good q
      → Runs (schedule_all cb (λ d. run cb (suc (suc fuel)) (queue_schedule d)) ds q)
  schedule_all-Runs fuel [] q g = here q g
  schedule_all-Runs fuel (d ∷ ds) q g =
      let s = schedule-Runs fuel d q g in rw s.returns (schedule_all-Runs fuel ds s.q' s.good)

  -- The first item has been sent and is completed: the others are new.
  completed-Runs :
      (fuel : ℕ) (q : Queue)
      → Good q
      → q.is_busy ≡ true
      → Runs (run cb (suc (suc (suc fuel))) handle_queue_completed q)
  unfolding run
  completed-Runs fuel q g e =
      subst (λ b. Runs (by_busy b)) (sym e)
        (by_items q.items (subst (λ b. Shape b q.items) e g.shape) g.fifo)
    where
      rest_of : List Item → Ret Queue
      rest_of items = do
        (i, rest) ← popped cb items
        schedule_all cb (λ d. run cb (suc (suc fuel)) (queue_schedule d))
            (cb.completed_schedules i.data_no) (record q { items = rest; is_busy = false })

      by_busy : Bool → Ret Queue
      by_busy b = assert b >> rest_of q.items

      by_items :
          (items : List Item)
          → Shape true items
          → q.asked ≡ q.executed ++ waiting items
          → Runs (rest_of items)
      by_items [] h f = absurd h
      by_items (i ∷ rest) h f =
          let q' : Queue = record q { items = rest; is_busy = false } in
          let f' : q.asked ≡ q.executed ++ waiting rest =
            f ∙ ap (λ s. q.executed ++ pick s i.data_no (waiting rest)) h.0 in
          rw h.0 (
            schedule_all-Runs fuel (cb.completed_schedules i.data_no) q'
              (record { shape = h.1; fifo = f' }))

  -- With callbacks that send a request whenever they execute: the kernel's answer to the request in
  -- flight, the callbacks that it runs and the next requests all return without a failed assertion;
  -- afterwards again at most the first item has been sent, and what has been executed and what is
  -- waiting are together what was asked for, in that order.
  pub queue_is_complete-Good :
      (fuel : ℕ) (q : Queue)
      → Good q
      → q.is_busy ≡ true
      → (q' : Queue) × (queue_is_complete cb (suc (suc (suc fuel))) q ≡ ok q') × Good q'
  unfolding queue_is_complete
  queue_is_complete-Good fuel q g e =
      let s = completed-Runs fuel q g e in
      let r : Runs (queue_is_complete cb (suc (suc (suc fuel))) q) =
        subst (λ m. Runs (m >>= λ q'. resumed q' (is_idle q'))) (sym s.returns)
          (resume-Runs s.q' s.good) in
      (r.q', r.returns, r.good)
    where
      resumed : Queue → Bool → Ret Queue
      resumed q' b = if b then run cb (suc (suc (suc fuel))) queue_process_loop q' else ok q'

      resume-Runs : (q' : Queue) → Good q' → Runs (resumed q' (is_idle q'))
      resume-Runs q' g' = elim (Bool-cases (is_idle q')) [
        | inl d ↦ subst (λ b. Runs (resumed q' b)) (sym d) (loop-Runs (suc (suc fuel)) q' g')
        | inr d ↦ subst (λ b. Runs (resumed q' b)) (sym d) (here q' g')
      ]

  -- The same of a new request.
  pub queue_schedule-Good :
      (fuel d : ℕ) (q : Queue)
      → Good q
      → (q' : Queue) × (run cb (suc (suc fuel)) (queue_schedule d) q ≡ ok q') × Good q'
  queue_schedule-Good fuel d q g = let s = schedule-Runs fuel d q g in (s.q', s.returns, s.good)
