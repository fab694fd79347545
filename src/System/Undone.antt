-- ===== src/System/Undone.antt =====
-- An order whose dispatch is refused is undone in all the services.
use event_driven_demo.Base.{ℕ, ◌≡◌, refl, Bool, true, false, none, some, [], ◌∷◌, elem, ==_refl}
use event_driven_demo.Base.Table.{find}
use event_driven_demo.Pyevents.Db.{idle}
use event_driven_demo.Pyevents.Saga.{Orch, dispatch}
use event_driven_demo.Services.Payment
use event_driven_demo.Services.Payment.{Payments, PaymentState}
use event_driven_demo.Services.Inventory
use event_driven_demo.Services.Inventory.{Inventory, InventoryState}
use event_driven_demo.Services.Shipping
use event_driven_demo.Services.Shipping.{Shipping, ShippingState}
use event_driven_demo.Services.Order
use event_driven_demo.Services.Order.{Orders, OrderRow, Status}
use event_driven_demo.Services.Order.Placing.{handler-sets}
use event_driven_demo.Services.Orchestrator.Machine.{waiting, undoing, dropped}
use event_driven_demo.Services.Orchestrator.Steps.{row_of}
use event_driven_demo.Pyevents.Json.{num, Dict, empty, item}
use event_driven_demo.System.Contents.{
  hears, label, Stages, amounts, delivery_of, failed-Stages, released-Stages, refunded-Stages,
}
use event_driven_demo.System.Answers.{because, refuse-Stages, release-Stages, refund-Stages}
use event_driven_demo.System.Journey.{moves}
use event_driven_demo.System.Restored.{
  payment_restored, reservation_restored, reserved_row, charge_tables,
}

-- An order that shipping-service refuses, each message for the first time: the databases have not handled
-- the messages to come.
pub record Refusal (o : ℕ) (d : Orch) (p : Payments) (i : Inventory) (s : Shipping) (q : Orders)
    : Type 0 where
  pub new_failed : elem (label "reply.shipping.failed" o) d.processed ≡ false
  pub new_released :
      elem (label "reply.inventory.released" o) (label "reply.shipping.failed" o ∷ d.processed)
      ≡ false
  pub new_refunded :
      elem
        (label "reply.payment.refunded" o)
        (label "reply.inventory.released" o ∷ label "reply.shipping.failed" o ∷ d.processed)
      ≡ false
  pub new_charge : elem (label "cmd.payment.charge" o) p.processed ≡ false
  pub new_refund :
      elem (label "cmd.payment.refund" o) (label "cmd.payment.charge" o ∷ p.processed) ≡ false
  pub new_reserve : elem (label "cmd.inventory.reserve" o) i.processed ≡ false
  pub new_release :
      elem (label "cmd.inventory.release" o) (label "cmd.inventory.reserve" o ∷ i.processed) ≡ false
  pub new_dispatch : elem (label "cmd.shipping.dispatch" o) s.processed ≡ false
  pub new_outcome : elem (label "order.cancelled" o) q.processed ≡ false

abbrev pub one_back : Dict
one_back = item "qty" (num 1) empty

module _ (re : Bool) (k o total began n1 n2 n3 : ℕ) (pay pay' : PaymentState)
    (stock stock' : InventoryState) (ship : ShippingState) (d : Orch) (p : Payments) (i : Inventory)
    (s : Shipping) (q : Orders) (r : Refusal o d p i s q) where
  -- Shipping-service refuses an order that waits for its dispatch, after payment-service has charged its
  -- total and inventory-service has reserved its unit: the orchestrator then stages the release and the
  -- refund of that total, in this order, both are answered, and then it stages the cancellation, each
  -- message with the event id and the body with which it is delivered; the saga ends CANCELLED,
  -- order-service marks the order as cancelled, and the tables of payment- and inventory-service, which
  -- had no row of the order, are as they were before its charge and its reservation. Sums are
  -- taken to fit their BIGINT columns.
  pub order_undone :
      (row : OrderRow)
      → find o d.tables.sagas ≡ some (row_of (waiting dispatch) o total began)
      → find o p.tables.payments ≡ none
      → find o i.tables.reservations ≡ none
      → find o q.tables.orders ≡ some row
      → pay.fail ≡ false
      → stock.fail ≡ false
      → stock.silent ≡ false
      → ship.fail ≡ true
      → let charge_cmd = delivery_of re k o "cmd.payment.charge" (amounts total) in
        let refund_cmd = delivery_of re k o "cmd.payment.refund" (amounts total) in
        let reserve_cmd = delivery_of re k o "cmd.inventory.reserve" (amounts total) in
        let release_cmd = delivery_of re k o "cmd.inventory.release" (amounts total) in
        let p1 = (Payment.handler pay charge_cmd (idle p)).1.committed in
        let p2 = (Payment.handler pay' refund_cmd (idle p1)).1.committed in
        let i1 = (Inventory.handler stock reserve_cmd (idle i)).1.committed in
        let i2 = (Inventory.handler stock' release_cmd (idle i1)).1.committed in
        let d1 = hears n1 (delivery_of re k o "reply.shipping.failed" (because "no courier")) d in
        let d2 = hears n2 (delivery_of re k o "reply.inventory.released" one_back) d1 in
        let d3 = hears n3 (delivery_of re k o "reply.payment.refunded" (amounts total)) d2 in
        Stages o
          (("reply.shipping.failed", because "no courier") ∷ [])
          s
          (Shipping.handler ship
            (delivery_of re k o "cmd.shipping.dispatch" (amounts total))
            (idle s)).1.committed
        × Stages o
            (("cmd.inventory.release", amounts total) ∷ ("cmd.payment.refund", amounts total) ∷ [])
            d
            d1
        × Stages o (("reply.inventory.released", one_back) ∷ []) i1 i2
        × (i2.tables ≡ i.tables)
        × Stages o (("reply.payment.refunded", amounts total) ∷ []) p1 p2
        × (p2.tables ≡ p.tables)
        × Stages o [] d1 d2
        × Stages o (("order.cancelled", because "compensated") ∷ []) d2 d3
        × ((began' : ℕ) × (find o d3.tables.sagas ≡ some (row_of dropped o total began')))
        × (find o
              (Order.handler
                (delivery_of re k o "order.cancelled" (because "compensated"))
                (idle q)).1.committed.tables.orders
            ≡ some (record row { status = Status.cancelled }))
  order_undone row waits unpaid unreserved known pays stocks speaks refuses =
      let charge_cmd = delivery_of re k o "cmd.payment.charge" (amounts total) in
      let reserve_cmd = delivery_of re k o "cmd.inventory.reserve" (amounts total) in
      let failed = delivery_of re k o "reply.shipping.failed" (because "no courier") in
      let (b1, row1, seen1) =
        moves n1 o total (waiting dispatch) "reply.shipping.failed" _ failed d
          (record { key = refl; order = refl }) refl r.new_failed (began, waits, refl) in
      let d1 = hears n1 failed d in
      let released = delivery_of re k o "reply.inventory.released" one_back in
      let (b2, row2, seen2) =
        moves n2 o total (undoing 1) "reply.inventory.released" _ released d1
          (record { key = refl; order = refl }) refl r.new_released (b1, row1, seen1) in
      let d2 = hears n2 released d1 in
      let (b3, row3, seen3) =
        moves n3 o total (undoing 0) "reply.payment.refunded" _
          (delivery_of re k o "reply.payment.refunded" (amounts total)) d2
          (record { key = refl; order = refl }) refl r.new_refunded (b2, row2, seen2) in
      let (returned, marks) =
        handler-sets (delivery_of re k o "order.cancelled" (because "compensated")) Status.cancelled
          o o q refl refl r.new_outcome in
      let (there, seen) =
        reserved_row stock o reserve_cmd i (record { key = refl; order = refl }) r.new_reserve
          stocks speaks unreserved in
      let (tables, paid) =
        charge_tables pay o total charge_cmd p (record { key = refl; order = refl }) refl
          r.new_charge pays in
      let i1 = (Inventory.handler stock reserve_cmd (idle i)).1.committed in
      let p1 = (Payment.handler pay charge_cmd (idle p)).1.committed in
      (
        refuse-Stages re k o total ship s r.new_dispatch refuses,
        failed-Stages re k n1 o total began (because "no courier") d r.new_failed waits,
        release-Stages re k o total stock' i1 (rw seen r.new_release) there,
        reservation_restored stock stock' o reserve_cmd _ i (record { key = refl; order = refl })
            (record { key = refl; order = refl }) r.new_reserve r.new_release stocks speaks
            unreserved,
        refund-Stages re k o total pay' p1 (rw paid r.new_refund),
        payment_restored pay pay' o total charge_cmd _ p (record { key = refl; order = refl }) refl
            (record { key = refl; order = refl }) refl r.new_charge r.new_refund pays unpaid,
        released-Stages re k n2 o total b1 one_back d1 (rw seen1 r.new_released) row1,
        refunded-Stages re k n3 o total b2 (amounts total) d2 (rw seen2 r.new_refunded) row2,
        (b3, row3),
        rw (==_refl o, known) at marks,
      )
