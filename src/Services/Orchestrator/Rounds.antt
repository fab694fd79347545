-- ===== src/Services/Orchestrator/Rounds.antt =====
-- A whole round of `_timeout_watchdog` of services/orchestrator/app/__main__.py.
use event_driven_demo.Base.{
  ℕ, ◌+◌, ◌<◌, ◌≡◌, ◌≢◌, ◌∙◌, subst, ◌⊎◌, inl, inr, Bool, true, false, none, some, [], ◌∷◌, arith,
  All, Bool-cases, ◌==◌, Option-cases,
}
use event_driven_demo.Base.Table.{Table, find, IsKeyed}
use event_driven_demo.Pyevents.Effect.{ok}
use event_driven_demo.Pyevents.Db.{idle}
use event_driven_demo.Pyevents.Saga.{Orch, Saga, Step}
use event_driven_demo.Services.Orchestrator.Timeouts.{
  timed_out, expire_all, stuck_rows, watchdog, settle,
}
use event_driven_demo.Services.Orchestrator.Machine.{waiting}
use event_driven_demo.Services.Orchestrator.Steps.{row_of}
use event_driven_demo.Services.Orchestrator.Orders.{AllSound}
use event_driven_demo.Services.Orchestrator.Watchdog.{
  stuck_rows-Waits, stuck_rows-Distinct, stuck_rows-cons, stuck_rows-ne,
}
use event_driven_demo.Services.Orchestrator.Expired.{
  GaveUp, Expired, expire_all-Expired, Sound-IsRow,
}

module _ (now timeout_s : ℕ) (locked : ℕ → Bool) where
  head_taken :
      (o : ℕ) (v : Saga) (step : Step) (t : Table Saga)
      → locked o ≡ false
      → timed_out now timeout_s v ≡ some step
      → stuck_rows now timeout_s locked ((o, v) ∷ t)
        ≡ (o, step, v.total_cents) ∷ stuck_rows now timeout_s locked t
  unfolding stuck_rows
  head_taken o v step t free late = rw (free, late)

  All-later :
      (P : ℕ × Step × ℕ → Type 0) (o : ℕ) (v : Saga) (t : Table Saga)
      → All P (stuck_rows now timeout_s locked ((o, v) ∷ t))
      → All P (stuck_rows now timeout_s locked t)
  unfolding stuck_rows
  All-later P o v t all = elim (Bool-cases (locked o)) [
    | inl e ↦ rw e at all
    | inr e ↦ elim (Option-cases (timed_out now timeout_s v)) [
      | inl f ↦ rw (e, f) at all
      | inr (step, f) ↦ (all_at e f all).1
    ]
  ]
    where
      all_at :
          {step : Step}
          → locked o ≡ false
          → timed_out now timeout_s v ≡ some step
          → All P (stuck_rows now timeout_s locked ((o, v) ∷ t))
          → P (o, step, v.total_cents) × All P (stuck_rows now timeout_s locked t)
      all_at e f all = rw (e, f) at all

  -- Whatever holds of all rows that are taken holds of an overdue one.
  stuck_rows-takes :
      (P : ℕ × Step × ℕ → Type 0) (j : ℕ) (s : Saga) (step : Step) (t : Table Saga)
      → locked j ≡ false
      → timed_out now timeout_s s ≡ some step
      → find j t ≡ some s
      → All P (stuck_rows now timeout_s locked t)
      → P (j, step, s.total_cents)
  stuck_rows-takes P j s step [] free late h all = cc
  stuck_rows-takes P j s step ((o, v) ∷ t) free late h all = elim (Bool-cases (o == j)) [
    | inl e ↦
        let at_j : o ≡ j = ground arith in
        let same : v ≡ s = ground arith in
        subst (λ k. P (k, step, s.total_cents)) at_j
          (subst (λ x. P (o, step, x.total_cents)) same
            (subst (All P) (head_taken o v step t (rw at_j free) (rw same late)) all).0)
    | inr e ↦ stuck_rows-takes P j s step t free late (rw e at h) (All-later P o v t all)
  ]

  -- A row that is locked, or whose step is not overdue, is not taken.
  stuck_rows-leaves :
      (j : ℕ) (s : Saga) (t : Table Saga)
      → IsKeyed t
      → (locked j ≡ true) ⊎ (timed_out now timeout_s s ≡ none)
      → find j t ≡ some s
      → All (λ q. q.0 ≢ j) (stuck_rows now timeout_s locked t)
  unfolding stuck_rows
  stuck_rows-leaves j s [] k skip h = tt
  stuck_rows-leaves j s ((o, v) ∷ t) k skip h = elim (Bool-cases (o == j)) [
    | inl e ↦
        let at_j : o ≡ j = ground arith in
        let same : v ≡ s = ground arith in
        stuck_rows-cons now timeout_s locked (λ q. q.0 ≢ j) o v t
          (stuck_rows-ne now timeout_s locked j t (subst (λ x. find x t ≡ none) at_j k.0))
          (λ step free late. absurd (skipped at_j same free late))
    | inr e ↦
        let ne : o ≢ j = ground arith in
        stuck_rows-cons now timeout_s locked (λ q. q.0 ≢ j) o v t
          (stuck_rows-leaves j s t k.1 skip (rw e at h)) (λ step free late. ne)
  ]
    where
      skipped :
          {step : Step}
          → o ≡ j
          → v ≡ s
          → locked o ≡ false
          → timed_out now timeout_s v ≡ some step
          → ⊥
      skipped at_j same free late = elim skip [ inl l ↦ cc | inr l ↦ cc ]

  overdue :
      (began : ℕ) (step : Step) (i total : ℕ)
      → began + timeout_s < now
      → timed_out now timeout_s (row_of (waiting step) i total began) ≡ some step
  unfolding timed_out
  overdue began step i total late = ground arith

  -- The rows that a round takes are waiting sagas, each taken once.
  round :
      (d : Orch)
      → AllSound d
      → let rs = stuck_rows now timeout_s locked d.tables.sagas in
        ((expire_all now timeout_s rs d).0 ≡ ok tt)
        × Expired now rs d (expire_all now timeout_s rs d).1
  round d h =
      let rs = stuck_rows now timeout_s locked d.tables.sagas in
      expire_all-Expired now timeout_s rs d h
        (stuck_rows-Waits now timeout_s locked d.tables.sagas h.keyed
          (λ j s e. Sound-IsRow j s d (h.sound j) e))
        (stuck_rows-Distinct now timeout_s locked d.tables.sagas h.keyed)

  watchdog_lem :
      (d : Orch)
      → AllSound d
      → (watchdog now timeout_s locked (idle d)).committed
        ≡ (expire_all now timeout_s (stuck_rows now timeout_s locked d.tables.sagas) d).1
  unfolding watchdog
  watchdog_lem d h = rw ((round d h).0, settle)

  -- A round of the watchdog keeps every order sound.
  pub watchdog-AllSound :
      (d : Orch) → AllSound d → AllSound (watchdog now timeout_s locked (idle d)).committed
  watchdog-AllSound d h = rw (watchdog_lem d h) (round d h).1.sound

  pub watchdog-processed :
      (d : Orch)
      → AllSound d
      → (watchdog now timeout_s locked (idle d)).committed.processed ≡ d.processed
  watchdog-processed d h = rw (watchdog_lem d h) (round d h).1.keeps

  -- A round of the watchdog gives up an overdue step whose row no one else has locked, in a database
  -- whose orders are sound: the saga then waits for its compensations, with their number in the row.
  pub watchdog_gives_up :
      (d : Orch) (j i total began : ℕ) (step : Step)
      → AllSound d
      → find j d.tables.sagas ≡ some (row_of (waiting step) i total began)
      → began + timeout_s < now
      → locked j ≡ false
      → GaveUp now (watchdog now timeout_s locked (idle d)).committed (j, step, total)
  watchdog_gives_up d j i total began step h row late free = rw (watchdog_lem d h) (
      stuck_rows-takes
        (GaveUp now (expire_all now timeout_s (stuck_rows now timeout_s locked d.tables.sagas) d).1)
        j (row_of (waiting step) i total began) step d.tables.sagas free
        (overdue began step i total late) row (round d h).1.moved)

  -- In a database whose orders are sound, a round of the watchdog leaves a row that is locked elsewhere
  -- or not overdue as it is.
  watchdog_leaves :
      (d : Orch) (j : ℕ) (s : Saga)
      → AllSound d
      → find j d.tables.sagas ≡ some s
      → (locked j ≡ true) ⊎ (timed_out now timeout_s s ≡ none)
      → find j (watchdog now timeout_s locked (idle d)).committed.tables.sagas ≡ some s
  watchdog_leaves d j s h row skip =
      rw (watchdog_lem d h)
        ((round d h).1.others j (stuck_rows-leaves j s d.tables.sagas h.keyed skip row) ∙ row)
