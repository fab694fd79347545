-- ===== src/Pyevents/Schema/Examples.antt =====
-- The schema scripts at concrete sessions.
use event_driven_demo.Base.{ℕ, ◌≡◌, refl, ◌⊎◌, String, List, [], ◌∷◌, All}
use event_driven_demo.Pyevents.Schema.{
  happen, turn, abort, run_script, running, returned, killed, Event, goes, killed_at, run, start,
}
use event_driven_demo.Pyevents.Schema.Places.{In}
use event_driven_demo.Pyevents.Schema.Serialised.{run_script_returns}
use event_driven_demo.Pyevents.Schema.Finishes.{going, run_script_ends}

-- The names of order-service's schema.sql, with which its threads begin.
abbrev order_script : ℕ → List String
order_script i = "processed_events" ∷ "orders" ∷ "outbox" ∷ "outbox_unpublished" ∷ []

-- The first session is killed in its transaction, and the second then takes the lock.
abbrev at_once : List Event
at_once =
    goes 1
    ∷ goes 2
    ∷ goes 1
    ∷ goes 1
    ∷ goes 2
    ∷ killed_at 1
    ∷ goes 2
    ∷ goes 3
    ∷ goes 2
    ∷ goes 2
    ∷ goes 2
    ∷ goes 2
    ∷ goes 2
    ∷ goes 2
    ∷ goes 2
    ∷ goes 2
    ∷ goes 2
    ∷ []

run_script_returns_example :
    let w = run at_once (start ("sagas" ∷ []) (λ j. run_script (order_script j))) in
    ((w.sessions 2).status ≡ running)
    ⊎ (((w.sessions 2).status ≡ killed)
        ⊎ (((w.sessions 2).status ≡ returned) × All (In w.committed) (order_script 2)))
run_script_returns_example = run_script_returns order_script ("sagas" ∷ []) at_once 2

-- The first session holds the lock, and the second waits for it.
abbrev held_up : List Event
held_up = goes 1 ∷ goes 2 ∷ goes 1 ∷ goes 2 ∷ []

run_script_ends_example :
    (ks : List ℕ) × (((run
          (going ks)
          (run held_up (start ("sagas" ∷ []) (λ j. run_script (order_script j))))).sessions
        2).status
      ≡ returned)
unfolding happen turn abort run_script
run_script_ends_example = run_script_ends order_script ("sagas" ∷ []) held_up 2 refl

second_returned :
    ((run at_once (start ("sagas" ∷ []) (λ j. run_script (order_script j)))).sessions 2).status
    ≡ returned
unfolding happen turn abort run_script
second_returned = refl
