-- ===== src/Scan/Reach.antt =====
-- src/scan.c: every state that the scan can come to, whatever the kernel answers and whatever the
-- chain table is at each answer.
use mathlib.Core.Path.{subst}
use flower_route.Base.{
  ℕ, ◌≤◌, ◌≡◌, refl, sym, ap, ◌∙◌, Bool, true, false, List, [], ◌∷◌, ◌++◌, ◌⊎◌, inl, inr, arith,
}
use flower_route.Ret.{Ret, ok, ◌>>=◌}
use flower_route.Scan.{
  scan_wait, run_helpers, Request, filters, Scan, Event, advance_scan, from_wait, scan_timeout_cb,
  advance_scan_cb, execute, scan_init,
}
use flower_route.Scan.Order.{asked, Ready, Outcome, asks, waits, advance_scan-Outcome}

ok-injective {ℓ} : {A : Type ℓ} {a b : A} → ok a ≡ ok b → a ≡ b
ok-injective e = cc

-- The scan, and its requests that are not answered yet.
pub record World : Type 0 where
  pub scan : Scan
  pub pending : List Request

module _ (exit : Bool) where
  -- The queue runs the first request and calls back with its answer, or the timer runs out.
  pub data Step (t u : World) : Type 0 where
    answered :
        (r : Request) (rest : List Request) (nodes : List ℕ) (fuel nl_errno : ℕ) (s' : Scan)
        (events : List Event)
        → t.pending ≡ r ∷ rest
        → 4 ≤ fuel
        → advance_scan_cb exit nodes fuel nl_errno (execute r t.scan) ≡ ok (s', events)
        → u ≡ record { scan = s'; pending = rest ++ asked events }
        → Step t u
    timed_out :
        (nodes : List ℕ) (fuel : ℕ) (s' : Scan) (events : List Event)
        → t.scan.timer_runs ≡ true
        → 4 ≤ fuel
        → scan_timeout_cb exit nodes fuel t.scan ≡ ok (s', events)
        → u ≡ record { scan = s'; pending = t.pending ++ asked events }
        → Step t u

  -- From `scan_init` on.
  pub data Reach : World → Type 0 where
    starts :
        (nodes : List ℕ) (fuel : ℕ) (s' : Scan) (events : List Event)
        → 4 ≤ fuel
        → advance_scan exit nodes fuel scan_init ≡ ok (s', events)
        → Reach (record { scan = s'; pending = asked events })
    next : {t u : World} → Reach t → Step t u → Reach u

  -- One request is pending and the timer is off, or none is and the timer runs.
  pub data Good (t : World) : Type 0 where
    one :
        (r : Request)
        → t.pending ≡ r ∷ []
        → Ready t.scan.state t.scan.next_chain
        → t.scan.timer_runs ≡ false
        → Good t
    idle : t.pending ≡ [] → t.scan.state ≡ scan_wait → t.scan.timer_runs ≡ true → Good t

  Outcome-Good :
      (s : Scan) (events : List Event)
      → Outcome s events
      → Good (record { scan = s; pending = asked events })
  Outcome-Good s events (asks r e ready t) = one r e ready t
  Outcome-Good s events (waits e w t) = idle e w t

  execute-Ready :
      (r : Request) (s : Scan)
      → Ready s.state s.next_chain
      → s.timer_runs ≡ false
      → Ready (execute r s).state (execute r s).next_chain × ((execute r s).timer_runs ≡ false)
  execute-Ready filters s h t = (tt, t)
  execute-Ready Request.links s h t = (h, t)
  execute-Ready Request.neigh4 s h t = (h, t)
  execute-Ready Request.neigh6 s h t = (h, t)
  execute-Ready Request.route4 s h t = (h, t)
  execute-Ready Request.route6 s h t = (h, t)
  execute-Ready Request.chains s h t = (h, t)
  execute-Ready Request.break_loop s h t = (h, t)
  execute-Ready (Request.chain c) s h t = (h, t)

  -- A call that returned has the outcome that the loop promises.
  advanced-Good :
      (nodes : List ℕ) (fuel : ℕ) (s s' : Scan) (events : List Event)
      → 4 ≤ fuel
      → Ready s.state s.next_chain
      → s.timer_runs ≡ false
      → advance_scan exit nodes fuel s ≡ ok (s', events)
      → Good (record { scan = s'; pending = asked events })
  advanced-Good nodes fuel s s' events hf h t e =
      let (s1, events1, e1, o) = advance_scan-Outcome exit nodes fuel s hf h t in
      let pair : (s1, events1) ≡ (s', events) = ok-injective (sym e1 ∙ e) in
      subst (λ p. Good (record { scan = p.0; pending = asked p.1 })) pair
        (Outcome-Good s1 events1 o)

  -- A world that is the outcome of a call, with nothing pending before.
  becomes :
      (u : World) (s' : Scan) (events : List Event) (before : List Request)
      → u ≡ record { scan = s'; pending = before ++ asked events }
      → before ≡ []
      → Good (record { scan = s'; pending = asked events })
      → Good u
  becomes u s' events before eq nil g =
      subst Good (sym eq)
        (subst (λ l. Good (record { scan = s'; pending = l ++ asked events })) (sym nil) g)

  -- In the state that waits, the timer's assertion holds.
  timeout-advance :
      (nodes : List ℕ) (fuel : ℕ) (s : Scan)
      → s.state ≡ scan_wait
      → scan_timeout_cb exit nodes fuel s
        ≡ advance_scan exit nodes fuel (record s { state = run_helpers; timer_runs = false })
  unfolding scan_timeout_cb
  timeout-advance nodes fuel s w = ap (λ st. from_wait st s >>= advance_scan exit nodes fuel) w

  Step-Good : {t u : World} → Step t u → Good t → Good u
  unfolding advance_scan_cb
  Step-Good {t} {u} (answered r rest nodes fuel nl_errno s' events p hf e eq) (one r' p' h off) =
      let (ready, off') = execute-Ready r t.scan h off in
      let nil : rest ≡ [] = cc in
      becomes u s' events rest eq nil
        (advanced-Good nodes fuel (execute r t.scan) s' events hf ready off' e)
  Step-Good {t} {u} (answered r rest nodes fuel nl_errno s' events p hf e eq) (idle p' w on) =
      let bad : ⊥ = cc in absurd bad
  Step-Good {t} {u} (timed_out nodes fuel s' events on hf e eq) (one r p h off) =
      let bad : ⊥ = cc in absurd bad
  Step-Good {t} {u} (timed_out nodes fuel s' events on hf e eq) (idle p w on') =
      becomes u s' events t.pending eq p (
        advanced-Good nodes fuel (record t.scan { state = run_helpers; timer_runs = false }) s'
          events hf tt refl (sym (timeout-advance nodes fuel t.scan w) ∙ e))

  pub Reach-Good : {t : World} → Reach t → Good t
  Reach-Good (starts nodes fuel s' events hf e) =
      advanced-Good nodes fuel scan_init s' events hf tt refl e
  Reach-Good (next r st) = Step-Good st (Reach-Good r)

  -- The call returns.
  abbrev pub Ends : Ret (Scan × List Event) → Type 0
  Ends m = (s' : Scan) × (events : List Event) × (m ≡ ok (s', events))

  -- One request is pending, the timer is off, and the callback with its answer returns; or none is,
  -- the timer runs, and its callback returns.
  abbrev pub GoesOn : World → Type 0
  GoesOn t =
      ((r : Request) × (t.pending ≡ r ∷ [])
        × (t.scan.timer_runs ≡ false)
        × ((nodes : List ℕ) (nl_errno : ℕ)
            → Ends (advance_scan_cb exit nodes 4 nl_errno (execute r t.scan))))
      ⊎ ((t.pending ≡ [])
          × (t.scan.timer_runs ≡ true)
          × ((nodes : List ℕ) → Ends (scan_timeout_cb exit nodes 4 t.scan)))

  returns_from :
      (nodes : List ℕ) (s : Scan)
      → Ready s.state s.next_chain
      → s.timer_runs ≡ false
      → Ends (advance_scan exit nodes 4 s)
  returns_from nodes s h t =
      let (s', events, e, o) = advance_scan-Outcome exit nodes 4 s (omega arith) h t in
      (s', events, e)

  Good-GoesOn : {t : World} → Good t → GoesOn t
  unfolding advance_scan_cb
  Good-GoesOn {t} (one r p h off) =
      let (ready, off') = execute-Ready r t.scan h off in
      inl (r, p, off, λ nodes nl_errno. returns_from nodes (execute r t.scan) ready off')
  Good-GoesOn {t} (idle p w on) = inr (
    p,
    on,
    λ nodes.
        let (s', events, e) =
          returns_from nodes (record t.scan { state = run_helpers; timer_runs = false }) tt refl in
        (s', events, timeout-advance nodes 4 t.scan w ∙ e),
  )

  -- In every state that the scan can come to, for every chain table and every result of the kernel:
  -- either exactly one request is pending, the timer is off, and the callback with its answer
  -- returns without a failed assertion; or none is pending, the timer runs, and the callback of the
  -- timer returns without a failed assertion. Four iterations of the loop are enough for either.
  pub Reach-GoesOn : {t : World} → Reach t → GoesOn t
  Reach-GoesOn reach = Good-GoesOn (Reach-Good reach)
