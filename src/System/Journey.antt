-- ===== src/System/Journey.antt =====
-- An order on its way through all the services, message by message.
use event_driven_demo.Base.{ℕ, ◌≡◌, ap, subst, ◌∙◌, String, true, false, some, List, ◌∷◌, elem}
use text.Mathlib.Text.{starts_with}
use event_driven_demo.Base.Table.{find}
use event_driven_demo.Pyevents.Effect.{ok, item_num}
use event_driven_demo.Pyevents.Db.Once.{marked}
use event_driven_demo.Pyevents.Consumer.{Message}
use event_driven_demo.Pyevents.Saga.{Orch}
use event_driven_demo.Services.Payment
use event_driven_demo.Services.Payment.{Payments}
use event_driven_demo.Services.Inventory
use event_driven_demo.Services.Inventory.{Inventory}
use event_driven_demo.Services.Shipping
use event_driven_demo.Services.Shipping.{Shipping}
use event_driven_demo.Services.Order
use event_driven_demo.Services.Order.{Orders}
use event_driven_demo.Services.Orchestrator.Machine.{Phase, reply_of, on_message}
use event_driven_demo.Services.Orchestrator.Turns.{Turned}
use event_driven_demo.Services.Orchestrator.Steps.{row_of}
use event_driven_demo.Services.Orchestrator.Outcome.{handler-follows}
use event_driven_demo.Pyevents.Json.{flag, Dict, empty, item}
use event_driven_demo.System.Contents.{hears, label}
use event_driven_demo.System.Answers.{Carries}

-- The row of the order and the ids of the events that have been handled.
abbrev pub Stands : ℕ → Phase → ℕ → List String → Orch → Type 0
Stands o p total seen d =
    (began : ℕ) × (find o d.tables.sagas ≡ some (row_of p o total began)) × (d.processed ≡ seen)

-- One reply, delivered for the first time, moves the order on.
pub moves :
    (now o total : ℕ) (p : Phase) (rk : String) (seen : List String) (msg : Message) (d : Orch)
    → Carries o rk msg
    → starts_with rk "reply." ≡ true
    → elem msg.event_id seen ≡ false
    → Stands o p total seen d
    → Stands o (on_message p (reply_of rk)).to total (msg.event_id ∷ seen) (hears now msg d)
moves now o total p rk seen msg d h reply new (began, row, same) =
    let (began', t) =
      handler-follows now o o total began p msg d (rw same new) (rw h.key reply) h.order row in
    let t' =
      subst
        (λ k.
          let mv = on_message p (reply_of k) in
          Turned o (marked msg.event_id d) (row_of mv.to o total began') mv.sends (hears now msg d))
        h.key t in
    (began', t'.row, t'.keeps ∙ ap (λ l. msg.event_id ∷ l) same)

-- An order that every service carries out, each message for the first time: its placing, and the
-- databases that have not handled the messages to come.
pub record Journey (o total : ℕ) (d : Orch) (p : Payments) (i : Inventory) (s : Shipping)
    (q : Orders) (placed : Message) : Type 0 where
  pub places : Carries o "order.placed" placed
  pub costs : item_num "total_cents" placed.body ≡ ok total
  pub new_placed : elem placed.event_id d.processed ≡ false
  pub new_charged : elem (label "reply.payment.charged" o) (placed.event_id ∷ d.processed) ≡ false
  pub new_reserved :
      elem
        (label "reply.inventory.reserved" o)
        (label "reply.payment.charged" o ∷ placed.event_id ∷ d.processed)
      ≡ false
  pub new_dispatched :
      elem (label "reply.shipping.dispatched" o) (
        label "reply.inventory.reserved" o
        ∷ label "reply.payment.charged" o
        ∷ placed.event_id
        ∷ d.processed)
      ≡ false
  pub new_charge : elem (label "cmd.payment.charge" o) p.processed ≡ false
  pub new_reserve : elem (label "cmd.inventory.reserve" o) i.processed ≡ false
  pub new_dispatch : elem (label "cmd.shipping.dispatch" o) s.processed ≡ false
  pub new_outcome : elem (label "order.shipped" o) q.processed ≡ false

abbrev pub final : Dict
final = item "final" (flag true) empty
