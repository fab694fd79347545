-- ===== src/Services/Order/Paired.antt =====
-- The outbox of order-service: orders of services/order-service/app/api.py and their events.
use mathlib.Core.List.{map-append}
use event_driven_demo.Base.{
  ℕ, ◌≡◌, refl, sym, ap, ◌∙◌, inl, inr, String, Option, some, List, [], ◌∷◌, ◌++◌, map, ◌==◌,
  Bool-cases,
}
use event_driven_demo.Base.Table.{Table, update}
use event_driven_demo.Pyevents.Json.{Json, num, get}
use event_driven_demo.Pyevents.Db.{OutboxRow, idle}
use event_driven_demo.Pyevents.Consumer.{Message}
use event_driven_demo.Services.Order.{
  Orders, OrderRow, Status, PlaceOrder, fits_bigint, place, place_order, set_status, handler,
}
use event_driven_demo.Services.Order.Placing.{place_fits, place_too_large}
use event_driven_demo.Services.Order.Keeps.{place_order_keeps, handler_keeps}

-- A request with the UUID and the time that it is given, or an outcome that is delivered.
pub data Step : Type 0 where
  posted : (event_id placed_at : String) → PlaceOrder → Step
  heard : Message → Step

unfoldable pub step : Step → Orders → Orders
unfolding place_order handler
step (posted event_id placed_at req) d = (place_order event_id placed_at req (idle d)).1.committed
step (heard msg) d = (handler msg (idle d)).1.committed

abbrev pub run : List Step → Orders → Orders
run [] d = d
run (s ∷ steps) d = run steps (step s d)

-- The routing key, the order and the total of an event.
abbrev pub announced : OutboxRow → String × Option Json × Option Json
announced r = (r.routing_key, get "order_id" r.body, get "total_cents" r.body)

-- What has to be announced of the orders, the newest row of the table being its first.
abbrev pub due : Table OrderRow → List (String × Option Json × Option Json)
due [] = []
due ((o, row) ∷ t) = due t ++ ("order.placed", some (num o), some (num row.total_cents)) ∷ []

abbrev pub Paired : Orders → Type 0
Paired d = map announced d.outbox ≡ due d.tables.orders

due-update :
    (o : ℕ) (st : Status) (t : Table OrderRow)
    → due (update o (λ row. record row { status = st }) t) ≡ due t
due-update o st [] = refl
due-update o st ((i, row) ∷ t) = elim (Bool-cases (i == o)) [
  | inl e ↦ rw e (
      ap (λ l. l ++ ("order.placed", some (num i), some (num row.total_cents)) ∷ [])
        (due-update o st t))
  | inr e ↦ rw e (
      ap (λ l. l ++ ("order.placed", some (num i), some (num row.total_cents)) ∷ [])
        (due-update o st t))
]

place-Paired :
    (event_id placed_at : String) (req : PlaceOrder) (d : Orders)
    → Paired d
    → Paired (place event_id placed_at req d).1
place-Paired event_id placed_at req d h = elim (Bool-cases (fits_bigint req.total_cents)) [
  | inl e ↦ rw (place_fits event_id placed_at req d e) (
      map-append announced d.outbox _
      ∙ ap
          (λ l.
            l ++ ("order.placed", some (num d.tables.next_order), some (num req.total_cents)) ∷ [])
          h)
  | inr e ↦ rw (place_too_large event_id placed_at req d e) h
]

step-Paired : (s : Step) (d : Orders) → Paired d → Paired (step s d)
unfolding step set_status
step-Paired (posted event_id placed_at req) d h =
    place_order_keeps Paired event_id placed_at req d h (place-Paired event_id placed_at req d h)
step-Paired (heard msg) d h =
    handler_keeps Paired msg d h (λ k. k) (λ o st e k. k ∙ sym (due-update o st e.tables.orders))

run-Paired : (steps : List Step) (d : Orders) → Paired d → Paired (run steps d)
run-Paired [] d h = h
run-Paired (s ∷ steps) d h = run-Paired steps (step s d) (step-Paired s d h)

-- order_db before the first request.
abbrev pub no_orders : ℕ → Orders
no_orders first = record {
  tables = record { orders = []; next_order = first };
  processed = [];
  outbox = [];
  next_id = 1;
}

-- Whatever requests are posted, valid or not, with totals that the column holds or not, and whatever
-- outcomes are delivered between them, however often: the events in the outbox are exactly one
-- order.placed for each row of the table of orders, in the order of the rows, with the row's id and total.
pub orders_announced :
    (steps : List Step) (first : ℕ)
    → let d = run steps (no_orders first) in map announced d.outbox ≡ due d.tables.orders
orders_announced steps first = run-Paired steps (no_orders first) refl
