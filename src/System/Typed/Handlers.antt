-- ===== src/System/Typed/Handlers.antt =====
-- Requests, deliveries and rounds of the watchdog keep all that is staged typed.
use event_driven_demo.Base.{
  inl, inr, false, Bool-cases, ℕ, refl, String, Bool, true, List, [], ◌∷◌, All-append,
}
use event_driven_demo.Pyevents.Effect.{Result, ok, err, ⊤}
use event_driven_demo.Pyevents.Db.{OutboxRow, idle, execute}
use event_driven_demo.Pyevents.Db.Once.{handle_once_invariant, marked}
use event_driven_demo.Pyevents.Consumer.{Message}
use event_driven_demo.Pyevents.Saga.{Orch, Step as SagaStep, LogKind, log}
use event_driven_demo.Services.Payment
use event_driven_demo.Services.Inventory
use event_driven_demo.Services.Shipping
use event_driven_demo.Services.Order
use event_driven_demo.Services.Order.Placing.{place_fits, place_too_large}
use event_driven_demo.Services.Order.{
  fits_bigint, placed_body, PlaceOrder, place_order, place, set_status, Status,
}
use event_driven_demo.Services.Orchestrator
use event_driven_demo.Services.Orchestrator.{react, begin_compensation}
use event_driven_demo.Services.Orchestrator.Timeouts.{
  expire, expire_all, stuck_rows, settle, watchdog, timeout_note,
}
use event_driven_demo.System.Typed.{Typed, AllTyped, Types, Types-bind}
use event_driven_demo.System.Typed.Services.{pay-Types, stock-Types, ship-Types}
use event_driven_demo.System.Typed.Orchestrator.{react-Types, begin_compensation-Types}

order_row : (event_id placed_at : String) (req : PlaceOrder) (d : Order.Orders) → OutboxRow
order_row event_id placed_at req d = record {
  id = d.next_id;
  event_id = event_id;
  routing_key = "order.placed";
  body = placed_body event_id d.tables.next_order req placed_at;
  published = false;
}

order_row-Typed :
    (event_id placed_at : String) (req : PlaceOrder) (d : Order.Orders)
    → Typed (order_row event_id placed_at req d)
unfolding order_row
order_row-Typed event_id placed_at req d = record {
  order = d.tables.next_order;
  amount = 0;
  identified = refl;
  ordered = refl;
  priced = refl;
  totalled = λ _. (req.total_cents, refl);
  labelled = λ e. cc e;
  named = λ e. cc e;
}

place-Types :
    (event_id placed_at : String) (req : PlaceOrder) → Types (place event_id placed_at req)
unfolding order_row
place-Types event_id placed_at req d t = elim (Bool-cases (fits_bigint req.total_cents)) [
  | inl e ↦
      rw (place_fits event_id placed_at req d e)
        (All-append Typed d.outbox _ t (order_row-Typed event_id placed_at req d, tt))
  | inr e ↦ rw (place_too_large event_id placed_at req d e) t
]

expire-Types : (now timeout_s : ℕ) (row : ℕ × SagaStep × ℕ) → Types (expire now timeout_s row)
unfolding expire
expire-Types now timeout_s (o, st, total) =
    Types-bind (log now o LogKind.timeout (timeout_note st timeout_s))
      (λ _. begin_compensation now o st total true) (unfold log in λ d t. t)
      (λ _. begin_compensation-Types now o st total true)

expire_all-Types :
    (now timeout_s : ℕ) (rows : List (ℕ × SagaStep × ℕ)) → Types (expire_all now timeout_s rows)
unfolding expire_all
expire_all-Types now timeout_s [] = λ d t. t
expire_all-Types now timeout_s (row ∷ rows) =
    Types-bind (expire now timeout_s row) (λ _. expire_all now timeout_s rows)
      (expire-Types now timeout_s row) (λ _. expire_all-Types now timeout_s rows)

pub watchdog-Types :
    (now timeout_s : ℕ) (locked : ℕ → Bool) (d : Orch)
    → AllTyped d
    → AllTyped (watchdog now timeout_s locked (idle d)).committed
unfolding watchdog
watchdog-Types now timeout_s locked d t =
    by_result (expire_all now timeout_s (stuck_rows now timeout_s locked d.tables.sagas) d)
      (expire_all-Types now timeout_s (stuck_rows now timeout_s locked d.tables.sagas) d t)
  where
    by_result :
        (y : Result ⊤ × Orch)
        → AllTyped y.1
        → AllTyped (settle (execute (λ _. y) (idle d))).committed
    by_result (ok _, d') u = u
    by_result (err e, d') u = t

module _ (event_id placed_at : String) (req : PlaceOrder) where
  pub place_order-Types :
      (d : Order.Orders)
      → AllTyped d
      → AllTyped (place_order event_id placed_at req (idle d)).1.committed
  place_order-Types d t =
      Order.Keeps.place_order_keeps (λ e. AllTyped e) event_id placed_at req d t
        (place-Types event_id placed_at req d t)

module _ (msg : Message) where
  pub orchestrator-Types :
      (now : ℕ) (d : Orch)
      → AllTyped d
      → AllTyped (Orchestrator.handler now msg (idle d)).1.committed
  unfolding Orchestrator.handler
  orchestrator-Types now d t =
      handle_once_invariant msg.event_id (react now msg) d (λ e. AllTyped e) t
        (react-Types now msg (marked msg.event_id d)) t

  pub payment-Types :
      (s : Payment.PaymentState) (d : Payment.Payments)
      → AllTyped d
      → AllTyped (Payment.handler s msg (idle d)).1.committed
  payment-Types s d t =
      Payment.Keeps.handler_keeps (λ e. AllTyped e) s msg d (λ h. h)
        (pay-Types s.fail msg.routing_key) t

  pub inventory-Types :
      (s : Inventory.InventoryState) (d : Inventory.Inventory)
      → AllTyped d
      → AllTyped (Inventory.handler s msg (idle d)).1.committed
  inventory-Types s d t =
      Inventory.Keeps.handler_keeps (λ e. AllTyped e) s msg d (λ h. h)
        (stock-Types s.fail s.silent msg.routing_key) t

  pub shipping-Types :
      (s : Shipping.ShippingState) (d : Shipping.Shipping)
      → AllTyped d
      → AllTyped (Shipping.handler s msg (idle d)).1.committed
  shipping-Types s d t =
      Shipping.Keeps.handler_keeps (λ e. AllTyped e) s msg d (λ h. h) (ship-Types s.fail) t

  pub order-Types :
      (d : Order.Orders) → AllTyped d → AllTyped (Order.handler msg (idle d)).1.committed
  order-Types d t =
      Order.Keeps.handler_keeps (λ e. AllTyped e) msg d t (λ h. h)
        (unfold set_status in λ o st e h. h)
