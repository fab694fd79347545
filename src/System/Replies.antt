-- ===== src/System/Replies.antt =====
-- What payment-, inventory- and shipping-service answer reaches the orchestrator, under the
-- declarations of infra/topology.py.
use event_driven_demo.Base.{
  ℕ, ◌≡◌, refl, ◌∙◌, inl, inr, String, Bool, true, false, [], ◌∷◌, All, All-append, str_eq, ◌==◌,
  Bool-cases, if◌then◌else◌,
}
use event_driven_demo.Pyevents.Effect.{pure, modify, ◌>>◌}
use event_driven_demo.Pyevents.Json.{Dict, num, item, empty}
use event_driven_demo.Pyevents.Db.{OutboxRow, Store, idle}
use event_driven_demo.Pyevents.Consumer.{Message}
use event_driven_demo.Services.Payment
use event_driven_demo.Services.Payment.{Payments, PaymentState, charge, refund}
use event_driven_demo.Services.Inventory
use event_driven_demo.Services.Inventory.{
  Inventory, InventoryState, reserve, release, widget, qty_of, change_stock,
}
use event_driven_demo.Services.Shipping
use event_driven_demo.Services.Shipping.{Shipping, ShippingState}
use event_driven_demo.Base.Table.{find, delete}
use event_driven_demo.Base.Int.{pos, ◌+ℤ◌}
use event_driven_demo.Infra.Topology.{Kind, commands, declare}
use event_driven_demo.Infra.Topology.Routes.{
  Compares, compare_keys, receivers, receivers-compare_keys,
}

-- The message gets to the orchestrator, and besides only to the observer.
abbrev pub Answers : (Kind → String → String → Bool) → OutboxRow → Type 0
Answers accepts row =
    receivers accepts commands row.routing_key ≡ "orchestrator.q" ∷ "observer.q" ∷ []

-- All that a service has staged are answers.
abbrev pub AllAnswers : (Kind → String → String → Bool) → {S : Type 0} → Store S → Type 0
AllAnswers accepts d = All (Answers accepts) d.outbox

module _ (accepts : Kind → String → String → Bool) (c : Compares accepts) where
  by_table :
      (rk : String)
      → receivers compare_keys commands rk ≡ "orchestrator.q" ∷ "observer.q" ∷ []
      → receivers accepts commands rk ≡ "orchestrator.q" ∷ "observer.q" ∷ []
  by_table rk table = receivers-compare_keys accepts c rk commands ∙ table

  charge-AllAnswers :
      (fail : Bool) (o n : ℕ) (d : Payments)
      → AllAnswers accepts d
      → AllAnswers accepts (charge fail o n d).1
  unfolding charge receivers declare
  charge-AllAnswers true o n d h =
      All-append (Answers accepts) d.outbox _ h (by_table "reply.payment.failed" refl, tt)
  charge-AllAnswers false o n d h =
      All-append (Answers accepts) d.outbox _ h (by_table "reply.payment.charged" refl, tt)

  refund-AllAnswers :
      (o n : ℕ) (d : Payments) → AllAnswers accepts d → AllAnswers accepts (refund o n d).1
  unfolding refund receivers declare
  refund-AllAnswers o n d h =
      All-append (Answers accepts) d.outbox _ h (by_table "reply.payment.refunded" refl, tt)

  pay-AllAnswers :
      (fail : Bool) (cmd : String) (o n : ℕ) (d : Payments)
      → AllAnswers accepts d
      → AllAnswers accepts (Payment.work fail cmd o n d).1
  unfolding Payment.work
  pay-AllAnswers fail cmd o n d h = elim (Bool-cases (str_eq cmd "cmd.payment.charge")) [
    | inl e ↦ rw e (charge-AllAnswers fail o n d h)
    | inr e ↦ rw e (elim (Bool-cases (str_eq cmd "cmd.payment.refund")) [
      | inl f ↦ rw f (refund-AllAnswers o n d h)
      | inr f ↦ rw f h
    ])
  ]

  reserve-AllAnswers :
      (fail silent : Bool) (o : ℕ) (d : Inventory)
      → AllAnswers accepts d
      → AllAnswers accepts (reserve fail silent o widget 1 d).1
  unfolding reserve receivers declare
  reserve-AllAnswers true silent o d h =
      All-append (Answers accepts) d.outbox _ h (by_table "reply.inventory.failed" refl, tt)
  reserve-AllAnswers false true o d h = h
  reserve-AllAnswers false false o d h =
      All-append (Answers accepts) d.outbox _ h (by_table "reply.inventory.reserved" refl, tt)

  reply-AllAnswers :
      (o : ℕ) (extra : Dict) (d : Inventory)
      → AllAnswers accepts d
      → AllAnswers accepts (Inventory.reply o "reply.inventory.released" extra d).1
  unfolding Inventory.reply receivers declare
  reply-AllAnswers o extra d h =
      All-append (Answers accepts) d.outbox _ h (by_table "reply.inventory.released" refl, tt)

  put_back :
      (nothing : Bool) (f : Inventory → Inventory) (o : ℕ) (extra : Dict) (d : Inventory)
      → (f d).outbox ≡ d.outbox
      → AllAnswers accepts d
      → AllAnswers accepts
          (((if nothing then pure tt else modify f)
              >> Inventory.reply o "reply.inventory.released" extra)
            d).1
  put_back true f o extra d same h = reply-AllAnswers o extra d h
  put_back false f o extra d same h = reply-AllAnswers o extra (f d) (rw same h)

  release-AllAnswers :
      (o : ℕ) (d : Inventory) → AllAnswers accepts d → AllAnswers accepts (release o widget d).1
  unfolding release
  release-AllAnswers o d h =
      let released = qty_of (find o d.tables.reservations) in
      put_back (released == 0)
        (λ e. record e {
          tables = record e.tables {
            stock = change_stock widget (λ q. q +ℤ pos released) e.tables.stock;
          };
        })
        o (item "qty" (num released) empty)
        (record d { tables = record d.tables { reservations = delete o d.tables.reservations } })
        refl h

  stock-AllAnswers :
      (fail silent : Bool) (cmd : String) (o : ℕ) (d : Inventory)
      → AllAnswers accepts d
      → AllAnswers accepts (Inventory.work fail silent cmd o d).1
  unfolding Inventory.work
  stock-AllAnswers fail silent cmd o d h = elim (Bool-cases (str_eq cmd "cmd.inventory.reserve")) [
    | inl e ↦ rw e (reserve-AllAnswers fail silent o d h)
    | inr e ↦ rw e (elim (Bool-cases (str_eq cmd "cmd.inventory.release")) [
      | inl f ↦ rw f (release-AllAnswers o d h)
      | inr f ↦ rw f h
    ])
  ]

  dispatch-AllAnswers :
      (fail : Bool) (o : ℕ) (d : Shipping)
      → AllAnswers accepts d
      → AllAnswers accepts (Shipping.work fail o d).1
  unfolding Shipping.work receivers declare
  dispatch-AllAnswers true o d h =
      All-append (Answers accepts) d.outbox _ h (by_table "reply.shipping.failed" refl, tt)
  dispatch-AllAnswers false o d h =
      All-append (Answers accepts) d.outbox _ h (by_table "reply.shipping.dispatched" refl, tt)

  -- Whatever command is delivered to payment-, inventory- or shipping-service, under any switches, all
  -- that the service has staged keeps reaching the orchestrator's queue on the exchange that its relay
  -- publishes on, and besides only the observer's.
  pub replies_reach :
      (pay : PaymentState) (stock : InventoryState) (ship : ShippingState) (msg : Message)
      (p : Payments) (i : Inventory) (s : Shipping)
      → AllAnswers accepts p
      → AllAnswers accepts i
      → AllAnswers accepts s
      → AllAnswers accepts (Payment.handler pay msg (idle p)).1.committed
        × AllAnswers accepts (Inventory.handler stock msg (idle i)).1.committed
        × AllAnswers accepts (Shipping.handler ship msg (idle s)).1.committed
  replies_reach pay stock ship msg p i s hp hi hs = (
    Payment.Keeps.handler_keeps (λ d. AllAnswers accepts d) pay msg p (λ k. k)
        (pay-AllAnswers pay.fail msg.routing_key) hp,
    Inventory.Keeps.handler_keeps (λ d. AllAnswers accepts d) stock msg i (λ k. k)
        (stock-AllAnswers stock.fail stock.silent msg.routing_key) hi,
    Shipping.Keeps.handler_keeps (λ d. AllAnswers accepts d) ship msg s (λ k. k)
        (dispatch-AllAnswers ship.fail) hs,
  )
