-- ===== src/System/JourneyExamples.antt =====
-- The theorems on an order's way through all the services, at one order.
use event_driven_demo.Base.{ℕ, some, ◌≡◌, refl, true, false, [], ◌∷◌}
use event_driven_demo.Pyevents.Json.{num, empty, item}
use event_driven_demo.Pyevents.Db.{idle}
use event_driven_demo.Pyevents.Consumer.{Message}
use event_driven_demo.Services.Payment
use event_driven_demo.Services.Inventory
use event_driven_demo.Services.Shipping
use event_driven_demo.Services.Inventory.Conserved.{full_stock}
use event_driven_demo.Services.Orchestrator.Outcome.{fresh_db}
use event_driven_demo.Services.Samples.{message, no_payments, accepting, stocked, no_shipments}
use event_driven_demo.Base.Table.{find}
use event_driven_demo.Services.Order
use event_driven_demo.Services.Order.{Orders, OrderRow, Status}
use event_driven_demo.Services.Orchestrator.Machine.{dropped}
use event_driven_demo.Services.Orchestrator.Steps.{row_of}
use event_driven_demo.System.Answers.{because}
use event_driven_demo.System.Contents.{Stages, hears, amounts, delivery_of}
use event_driven_demo.Base.Text.{str}
use event_driven_demo.Pyevents.Saga.{Orch}
use event_driven_demo.Services.Shipping.{ShippingState}
use event_driven_demo.Services.Orchestrator
use event_driven_demo.System.Undone.{Refusal, one_back, order_undone}
use event_driven_demo.System.Journey.{Journey}

abbrev placed : Message
placed =
    message "order.placed" "uuid" (item "order_id" (num 7) (item "total_cents" (num 500) empty))

-- The order in order_db.
abbrev ordered : OrderRow
ordered = record { customer_id = "ada"; total_cents = 500; status = Status.pending }

abbrev known_order : Orders
known_order = record {
  tables = record { orders = (7, ordered) ∷ []; next_order = 8 };
  processed = [];
  outbox = [];
  next_id = 1;
}

-- The orchestrator while it waits for the dispatch of the order.
abbrev dispatching : Orch
dispatching = hears 2 (delivery_of false 1 7 "reply.inventory.reserved" empty) (
    hears 1 (delivery_of false 1 7 "reply.payment.charged" (amounts 500)) (hears 0 placed fresh_db))

abbrev no_courier : ShippingState
no_courier = record {
  fail = true;
  switches = record { duplicate_mode = false; relay_paused = false };
}

refusal : Refusal 7 dispatching no_payments full_stock no_shipments known_order
unfolding Orchestrator.handler str
refusal = record {
  new_failed = refl;
  new_released = refl;
  new_refunded = refl;
  new_charge = refl;
  new_refund = refl;
  new_reserve = refl;
  new_release = refl;
  new_dispatch = refl;
  new_outcome = refl;
}

order_undone_example :
    let charge_cmd = delivery_of false 1 7 "cmd.payment.charge" (amounts 500) in
    let refund_cmd = delivery_of false 1 7 "cmd.payment.refund" (amounts 500) in
    let reserve_cmd = delivery_of false 1 7 "cmd.inventory.reserve" (amounts 500) in
    let release_cmd = delivery_of false 1 7 "cmd.inventory.release" (amounts 500) in
    let p1 = (Payment.handler accepting charge_cmd (idle no_payments)).1.committed in
    let p2 = (Payment.handler accepting refund_cmd (idle p1)).1.committed in
    let i1 = (Inventory.handler stocked reserve_cmd (idle full_stock)).1.committed in
    let i2 = (Inventory.handler stocked release_cmd (idle i1)).1.committed in
    let d1 =
      hears 3 (delivery_of false 1 7 "reply.shipping.failed" (because "no courier")) dispatching in
    let d2 = hears 4 (delivery_of false 1 7 "reply.inventory.released" one_back) d1 in
    let d3 = hears 5 (delivery_of false 1 7 "reply.payment.refunded" (amounts 500)) d2 in
    Stages 7
      (("reply.shipping.failed", because "no courier") ∷ [])
      no_shipments
      (Shipping.handler no_courier
        (delivery_of false 1 7 "cmd.shipping.dispatch" (amounts 500))
        (idle no_shipments)).1.committed
    × Stages 7
        (("cmd.inventory.release", amounts 500) ∷ ("cmd.payment.refund", amounts 500) ∷ [])
        dispatching
        d1
    × Stages 7 (("reply.inventory.released", one_back) ∷ []) i1 i2
    × (i2.tables ≡ full_stock.tables)
    × Stages 7 (("reply.payment.refunded", amounts 500) ∷ []) p1 p2
    × (p2.tables ≡ no_payments.tables)
    × Stages 7 [] d1 d2
    × Stages 7 (("order.cancelled", because "compensated") ∷ []) d2 d3
    × ((began' : ℕ) × (find 7 d3.tables.sagas ≡ some (row_of dropped 7 500 began')))
    × (find 7
          (Order.handler
            (delivery_of false 1 7 "order.cancelled" (because "compensated"))
            (idle known_order)).1.committed.tables.orders
        ≡ some (record ordered { status = Status.cancelled }))
unfolding Orchestrator.handler str
order_undone_example =
    order_undone false 1 7 500 2 3 4 5 accepting accepting stocked stocked no_courier dispatching
      no_payments full_stock no_shipments known_order refusal ordered refl refl refl refl refl refl
      refl refl
