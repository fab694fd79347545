-- ===== src/Pyevents/Schema/Serialised.antt =====
-- The advisory lock of `run_script`, libs/pyevents/pyevents/db.py, keeps the schema scripts apart.
use event_driven_demo.Base.{ℕ, ◌≡◌, refl, ap, ◌⊎◌, inl, inr, String, Option, List, [], ◌∷◌, All}
use event_driven_demo.Pyevents.Schema.{
  run_script, running, returned, killed, Session, Server, abort, turn, Event, goes, killed_at,
  happen, run, start,
}
use event_driven_demo.Pyevents.Schema.Places.{
  In, Place, waits, inside, inserting, has_returned, was_killed, Serial,
}
use event_driven_demo.Pyevents.Schema.Steps.{
  turn_at, take_lock-Serial, insert-Serial, inside-Serial, abort-Serial,
}

module _ (script : ℕ → List String) where
  pub turn-Serial : (i : ℕ) (w : Server) → Serial script w → Serial script (turn i w)
  turn-Serial i w s = by_place (s.places i)
    where
      by_place :
          Place script i w.lock_holder w.committed w.inserted (w.sessions i)
          → Serial script (turn i w)
      by_place (waits off e) =
          rw (turn_at script i w _ e)
            (unfold run_script in take_lock-Serial script i w w.lock_holder e refl s)
      by_place (inside done names mine e split there) =
          rw (turn_at script i w _ e) (inside-Serial script i w done names mine split there s)
      by_place (inserting done name names mine e split there new) =
          rw (turn_at script i w _ e)
            (insert-Serial script i w done name names mine split there new s)
      by_place (has_returned off e all_in) = rw (turn_at script i w _ e) s
      by_place (was_killed off e) = rw (turn_at script i w _ e) s

  pub run-Serial : (es : List Event) (w : Server) → Serial script w → Serial script (run es w)
  unfolding happen
  run-Serial [] w s = s
  run-Serial (goes i ∷ es) w s = run-Serial es (turn i w) (turn-Serial i w s)
  run-Serial (killed_at i ∷ es) w s =
      run-Serial es (abort i killed w) (abort-Serial script i w w.lock_holder refl s)

  pub start-Serial :
      (committed : List String) → Serial script (start committed (λ i. run_script (script i)))
  start-Serial committed = record { rows = tt; places = λ i. waits (λ e. cc) refl }

  -- Sessions run one script each, as many as there are and in whatever order they take their steps,
  -- while some are killed at any point: no call of run_script raises. Each still runs, was killed, or has
  -- returned, and then all names of its script are in the catalog.
  pub run_script_returns :
      (committed : List String) (es : List Event) (i : ℕ)
      → let w = run es (start committed (λ j. run_script (script j))) in
        ((w.sessions i).status ≡ running)
        ⊎ (((w.sessions i).status ≡ killed)
            ⊎ (((w.sessions i).status ≡ returned) × All (In w.committed) (script i)))
  run_script_returns committed es i = by_place ((run-Serial es _ (start-Serial committed)).places i)
    where
      by_place :
          {h : Option ℕ} {c : List String} {r : List (ℕ × String)} {s : Session}
          → Place script i h c r s
          → (s.status ≡ running)
            ⊎ ((s.status ≡ killed) ⊎ ((s.status ≡ returned) × All (In c) (script i)))
      by_place (waits off e) = inl (ap (λ s. s.status) e)
      by_place (inside done names mine e split there) = inl (ap (λ s. s.status) e)
      by_place (inserting done name names mine e split there new) = inl (ap (λ s. s.status) e)
      by_place (has_returned off e all_in) = inr (inr (ap (λ s. s.status) e, all_in))
      by_place (was_killed off e) = inr (inl (ap (λ s. s.status) e))
