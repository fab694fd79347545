-- ===== src/Services/Orchestrator/Examples.antt =====
-- The theorems on services/orchestrator/app/__main__.py, each at one concrete input.
use event_driven_demo.Base.{ℕ, ◌+◌, ◌≤◌, ◌≡◌, refl, inl, String, false, some, List, [], ◌∷◌, arith}
use event_driven_demo.Base.Text.{str}
use event_driven_demo.Base.Table.{find}
use event_driven_demo.Pyevents.Json.{num, empty, item}
use event_driven_demo.Pyevents.Db.{idle}
use event_driven_demo.Pyevents.Db.Once.{marked}
use event_driven_demo.Pyevents.Consumer.{Message}
use event_driven_demo.Pyevents.Saga.{charge, reserve}
use event_driven_demo.Services.Orchestrator.{comps_for, handler}
use event_driven_demo.Services.Orchestrator.Timeouts.{watchdog}
use event_driven_demo.Services.Orchestrator.Machine.{dropped, waiting}
use event_driven_demo.Services.Orchestrator.Turns.{Turned}
use event_driven_demo.Services.Orchestrator.Steps.{row_of}
use event_driven_demo.Services.Orchestrator.Trace.{times}
use event_driven_demo.Services.Orchestrator.Orders.{history}
use event_driven_demo.Services.Orchestrator.Expired.{GaveUp}
use event_driven_demo.Services.Orchestrator.Rounds.{watchdog_gives_up}
use event_driven_demo.Services.Orchestrator.Outcome.{
  Event, delivery, tick, run, transact, fresh_db, fresh-AllSound, run-AllSound, one_outcome,
  outcome_announced, handler-follows,
}
use event_driven_demo.Services.Orchestrator.Race.{
  handle_late, ShippedAndRefunded, stale_reply_ships,
}
use event_driven_demo.Services.Orchestrator.Converge.{compensation_ends, timeout_ends}
use event_driven_demo.Services.Samples.{message}

abbrev placed : Message
placed =
    message "order.placed" "uuid" (item "order_id" (num 7) (item "total_cents" (num 500) empty))

abbrev answer : String → Message
answer rk = message rk rk (item "order_id" (num 7) empty)

-- An order that is charged for, and whose reservation then fails.
abbrev refused : List Event
refused =
    delivery 0 placed
    ∷ delivery 1 (answer "reply.payment.charged")
    ∷ delivery 2 (answer "reply.inventory.failed")
    ∷ delivery 3 (answer "reply.payment.refunded")
    ∷ tick 99 12 (λ _. false)
    ∷ []

-- An order that waits for its charge.
abbrev begun : List Event
begun = delivery 1 placed ∷ []

one_outcome_example :
    let out = history 7 (run refused fresh_db) in
    (times "cmd.payment.charge" out ≤ 1)
    × (times "order.shipped" out + times "order.cancelled" out ≤ 1)
    × (times "order.shipped" out + times "cmd.payment.refund" out ≤ 1)
one_outcome_example = one_outcome refused 7

outcome_announced_example :
    let out = history 7 (run begun fresh_db) in
    (times "order.shipped" out ≡ 0) × (times "order.cancelled" out ≡ 0)
unfolding run transact handler str
outcome_announced_example = outcome_announced begun 7 refl

handler-follows_example :
    (began' : ℕ) × Turned 7
      (marked "reply.payment.charged" (run begun fresh_db))
      (row_of (waiting reserve) 7 500 began')
      ("cmd.inventory.reserve" ∷ [])
      (handler 2 (answer "reply.payment.charged") (idle (run begun fresh_db))).1.committed
unfolding run transact handler str
handler-follows_example =
    handler-follows 2 7 7 500 1 (waiting charge) (answer "reply.payment.charged")
      (run begun fresh_db) refl refl refl refl

watchdog_gives_up_example :
    GaveUp 99 (watchdog 99 12 (λ _. false) (idle (run begun fresh_db))).committed (7, charge, 500)
unfolding run transact handler str
watchdog_gives_up_example =
    watchdog_gives_up 99 12 (λ _. false) (run begun fresh_db) 7 7 500 1 charge
      (run-AllSound begun fresh_db fresh-AllSound) refl (omega arith) refl

-- An order whose refund is on its way.
abbrev refunding : List Event
refunding =
    delivery 0 placed
    ∷ delivery 1 (answer "reply.payment.charged")
    ∷ delivery 2 (answer "reply.inventory.failed")
    ∷ []

compensation_ends_example :
    find 7
      (run
        (delivery 3 (answer "reply.payment.refunded") ∷ [])
        (run refunding fresh_db)).tables.sagas
    ≡ some (row_of dropped 7 500 2)
unfolding run transact handler str
compensation_ends_example =
    compensation_ends 0 7 7 500 2 ((3, answer "reply.payment.refunded") ∷ [])
      (run refunding fresh_db) refl ((inl refl, refl), tt) (refl, tt) refl

timeout_ends_example :
    (i : ℕ) × (find 7
        (run
          (tick 99 12 (λ _. false) ∷ delivery 100 (answer "reply.payment.refunded") ∷ [])
          (run begun fresh_db)).tables.sagas
      ≡ some (row_of dropped i 500 99))
unfolding run transact handler str comps_for
timeout_ends_example =
    timeout_ends 99 12 (λ _. false) charge 7 7 500 1 ((100, answer "reply.payment.refunded") ∷ [])
      (run begun fresh_db) (run-AllSound begun fresh_db fresh-AllSound) refl (omega arith) refl refl
      ((inl refl, refl), tt) (refl, tt)

-- An order whose reservation is awaited.
abbrev reserving : List Event
reserving = delivery 0 placed ∷ delivery 1 (answer "reply.payment.charged") ∷ []

stale_reply_ships_example :
    let d = run reserving fresh_db in
    let e = (watchdog 99 12 (λ _. false) (idle d)).committed in
    let f = handle_late 100 7 "reply.inventory.reserved" d e in
    ShippedAndRefunded 7 (handle_late 101 7 "reply.shipping.dispatched" f f)
unfolding run transact handler str
stale_reply_ships_example =
    stale_reply_ships 99 12 (λ _. false) 7 7 500 1 100 101 (run reserving fresh_db)
      (run-AllSound reserving fresh_db fresh-AllSound) refl (omega arith) refl
