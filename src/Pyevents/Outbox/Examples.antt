-- ===== src/Pyevents/Outbox/Examples.antt =====
-- The theorem on runs of the relay, at a broker that loses the channel in the middle of a batch.
use mathlib.Core.List.{append-nil}
use event_driven_demo.Base.{
  ℕ, zero, suc, ◌+◌, refl, sym, inl, inr, String, true, false, List, [], ◌∷◌, ◌++◌, arith,
}
use event_driven_demo.Pyevents.Json.{Json, empty}
use event_driven_demo.Pyevents.Effect.{ok, err, amqp_error, ⊤, Action, modify}
use event_driven_demo.Pyevents.Db.{OutboxRow, Store}
use event_driven_demo.Pyevents.Publisher.{Sent}
use event_driven_demo.Pyevents.Publisher.Delivers.{Delivers}
use event_driven_demo.Pyevents.Outbox.Runs.{Step, turn, stage, run, Serial}
use event_driven_demo.Pyevents.Outbox.ExactlyOnce.{Effect, staged, exactly_once}

-- How many messages the channel still takes, and what has gone out.
abbrev Flaky : Type 0
Flaky = ℕ × List Sent

abbrev give : Sent → Action Flaky ⊤
give m (zero, out) = (err amqp_error, (zero, out))
give m (suc n, out) = (ok tt, (n, out ++ m ∷ []))

give-Delivers : (m : Sent) (w : Flaky) → Delivers (λ x. x.1) (m ∷ []) w (give m w)
give-Delivers m (zero, out) = inr (amqp_error, [], m ∷ [], refl, refl, sym (append-nil out))
give-Delivers m (suc n, out) = inl (refl, refl)

abbrev reopen : Action Flaky ⊤
reopen (n, out) = (ok tt, (5, out))

abbrev row : ℕ → String → OutboxRow
row id routing_key = record {
  id = id;
  event_id = routing_key;
  routing_key = routing_key;
  body = empty;
  published = false;
}

abbrev two_rows : Store ⊤
two_rows = record { tables = tt; processed = []; outbox = row 1 "a" ∷ row 2 "b" ∷ []; next_id = 3 }

two_rows-Serial : Serial two_rows
two_rows-Serial = record {
  distinct = (((λ e. omega (arith, e)), tt), (tt, tt));
  below = omega arith;
}

-- A consumer that counts.
abbrev count : Sent → Action (Store ℕ) ⊤
count m = modify λ d. record d { tables = d.tables + 1 }

abbrev container : Json → String
container v = ""

-- The first turn loses the channel after one copy, the second sends the rest.
abbrev steps : List Step
steps = turn false true ∷ stage "c" "c" empty ∷ turn false false ∷ turn true false ∷ []

exactly_once_example :
    Effect
      (λ m. m.routing_key)
      count
      (λ m e. refl)
      (λ m e. refl)
      (λ d. "{}")
      container
      "orders"
      (λ x. x.1)
      (two_rows, (1, []))
      (staged (λ d. "{}") container "orders" steps)
      (run (λ d. "{}") container give "orders" reopen 50 steps (two_rows, (1, [])))
exactly_once_example =
    exactly_once (λ m. m.routing_key) count (λ m e. refl) (λ m e. refl) (λ d. "{}") container
      "orders" give (λ x. x.1) give-Delivers reopen (λ ch. refl) 50 steps two_rows (1, [])
      two_rows-Serial
