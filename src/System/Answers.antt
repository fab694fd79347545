-- ===== src/System/Answers.antt =====
-- What payment-, inventory- and shipping-service answer to a command that they carry out, or refuse.
use Prim.Native.String.{◌++◌ as text_append}
use mathlib.Core.List.{map-append}
use event_driven_demo.Base.{ℕ, ◌≡◌, String, Bool, true, false, some, [], ◌∷◌, elem}
use event_driven_demo.Base.Text.{str}
use event_driven_demo.Base.Table.{find}
use event_driven_demo.Pyevents.Json.{num, string, Dict, empty, item}
use event_driven_demo.Pyevents.Effect.{ok, item_num}
use event_driven_demo.Pyevents.Db.{idle, handle_once}
use event_driven_demo.Pyevents.Consumer.{Message}
use event_driven_demo.Services.Payment
use event_driven_demo.Services.Payment.{Payments, PaymentState}
use event_driven_demo.Services.Inventory
use event_driven_demo.Services.Inventory.{Inventory, InventoryState, Reservation, widget}
use event_driven_demo.Services.Shipping
use event_driven_demo.Services.Shipping.{Shipping, ShippingState}
use event_driven_demo.System.Contents.{Stages, told, label, amounts, delivery_of}

-- The message is about the order, under this routing key.
pub record Carries (o : ℕ) (rk : String) (msg : Message) : Type 0 where
  pub key : msg.routing_key ≡ rk
  pub order : item_num "order_id" msg.body ≡ ok o

-- `f"TRK-{order_id}"`
abbrev pub tracking : ℕ → Dict
tracking o = item "tracking_code" (string (text_append "TRK-" (str o))) empty

abbrev pub because : String → Dict
because reason = item "reason" (string reason) empty

-- The one unit that a reservation takes.
abbrev pub one_unit : Reservation
one_unit = record { sku = widget; qty = 1 }

module _ (re : Bool) (k o amount : ℕ) where
  pub charge-Stages :
      (s : PaymentState) (d : Payments)
      → elem (label "cmd.payment.charge" o) d.processed ≡ false
      → s.fail ≡ false
      → Stages o
          (("reply.payment.charged", amounts amount) ∷ [])
          d
          (Payment.handler s
            (delivery_of re k o "cmd.payment.charge" (amounts amount))
            (idle d)).1.committed
  unfolding Payment.handler Payment.charge Payment.reply handle_once
  charge-Stages s d new works = rw (new, works) (map-append told d.outbox _)

  pub refund-Stages :
      (s : PaymentState) (d : Payments)
      → elem (label "cmd.payment.refund" o) d.processed ≡ false
      → Stages o
          (("reply.payment.refunded", amounts amount) ∷ [])
          d
          (Payment.handler s
            (delivery_of re k o "cmd.payment.refund" (amounts amount))
            (idle d)).1.committed
  unfolding Payment.handler Payment.refund Payment.reply handle_once
  refund-Stages s d new = rw new (map-append told d.outbox _)

  pub reserve-Stages :
      (s : InventoryState) (d : Inventory)
      → elem (label "cmd.inventory.reserve" o) d.processed ≡ false
      → s.fail ≡ false
      → s.silent ≡ false
      → Stages o
          (("reply.inventory.reserved", empty) ∷ [])
          d
          (Inventory.handler s
            (delivery_of re k o "cmd.inventory.reserve" (amounts amount))
            (idle d)).1.committed
  unfolding Inventory.handler Inventory.reserve Inventory.reply handle_once
  reserve-Stages s d new works speaks = rw (new, works, speaks) (map-append told d.outbox _)

  pub release-Stages :
      (s : InventoryState) (d : Inventory)
      → elem (label "cmd.inventory.release" o) d.processed ≡ false
      → find o d.tables.reservations ≡ some one_unit
      → Stages o
          (("reply.inventory.released", item "qty" (num 1) empty) ∷ [])
          d
          (Inventory.handler s
            (delivery_of re k o "cmd.inventory.release" (amounts amount))
            (idle d)).1.committed
  unfolding Inventory.handler Inventory.release Inventory.reply handle_once
  release-Stages s d new holds = rw (new, holds) (map-append told d.outbox _)

  pub dispatch-Stages :
      (s : ShippingState) (d : Shipping)
      → elem (label "cmd.shipping.dispatch" o) d.processed ≡ false
      → s.fail ≡ false
      → Stages o
          (("reply.shipping.dispatched", tracking o) ∷ [])
          d
          (Shipping.handler s
            (delivery_of re k o "cmd.shipping.dispatch" (amounts amount))
            (idle d)).1.committed
  unfolding Shipping.handler Shipping.work Shipping.reply handle_once
  dispatch-Stages s d new works = rw (new, works) (map-append told d.outbox _)

  pub refuse-Stages :
      (s : ShippingState) (d : Shipping)
      → elem (label "cmd.shipping.dispatch" o) d.processed ≡ false
      → s.fail ≡ true
      → Stages o
          (("reply.shipping.failed", because "no courier") ∷ [])
          d
          (Shipping.handler s
            (delivery_of re k o "cmd.shipping.dispatch" (amounts amount))
            (idle d)).1.committed
  unfolding Shipping.handler Shipping.work Shipping.reply handle_once
  refuse-Stages s d new refuses = rw (new, refuses) (map-append told d.outbox _)
