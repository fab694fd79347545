-- ===== src/System/Contents.antt =====
-- What the services stage on an order's way: whole messages, with their event ids and bodies.
use Prim.Native.String.{◌++◌ as text_append}
use text.Mathlib.TextLemmas.{append-nil}
use mathlib.Core.List.{map-append, append-nil as list_append_nil}
use event_driven_demo.Base.{
  ℕ, ◌≡◌, refl, sym, ap, ◌∙◌, String, Bool, true, false, none, some, List, [], ◌∷◌, ◌++◌, map, elem,
  ==_refl, suc,
}
use event_driven_demo.Base.Text.{str}
use event_driven_demo.Base.Table.{find, update, find-update}
use event_driven_demo.Base.Int.{pos, ◌-ℤ◌}
use event_driven_demo.Pyevents.Json.{num, string, flag, Dict, empty, item}
use event_driven_demo.Pyevents.Effect.{ok, item_num}
use event_driven_demo.Pyevents.Db.{OutboxRow, Store, idle, handle_once}
use event_driven_demo.Pyevents.Consumer.{Message}
use event_driven_demo.Pyevents.Saga.{Orch, charge, reserve, dispatch}
use event_driven_demo.Services.Orchestrator
use event_driven_demo.Services.Orchestrator.Machine.{Phase, waiting, undoing}
use event_driven_demo.Services.Orchestrator.Steps.{row_of}

-- The orchestrator's database after a delivery.
abbrev pub hears : ℕ → Message → Orch → Orch
hears now msg d = (Orchestrator.handler now msg (idle d)).1.committed

abbrev pub label : String → ℕ → String
label rk o = text_append rk (text_append ":" (str o))

abbrev pub body_of : ℕ → String → Dict → Dict
body_of o rk extra = item "event_id" (string (label rk o)) (item "order_id" (num o) extra)

-- The message that a service stages for the order.
abbrev pub told : OutboxRow → String × String × Dict
told row = (row.event_id, row.routing_key, row.body)

abbrev pub expected : ℕ → List (String × Dict) → List (String × String × Dict)
expected o ms = map (λ m. (label m.0 o, m.0, body_of o m.0 m.1)) ms

abbrev pub Stages : {S : Type 0} → ℕ → List (String × Dict) → Store S → Store S → Type 0
Stages o ms d d' = map told d'.outbox ≡ map told d.outbox ++ expected o ms

abbrev pub amounts : ℕ → Dict
amounts n = item "amount_cents" (num n) empty

-- The delivery of such a message.
abbrev pub delivery_of : Bool → ℕ → ℕ → String → Dict → Message
delivery_of redelivered attempt o rk extra = record {
  routing_key = rk;
  body = body_of o rk extra;
  event_id = label rk o;
  redelivered = redelivered;
  attempt = attempt;
}

pub start-Stages :
    (now o total : ℕ) (msg : Message) (d : Orch)
    → elem msg.event_id d.processed ≡ false
    → msg.routing_key ≡ "order.placed"
    → item_num "order_id" msg.body ≡ ok o
    → item_num "total_cents" msg.body ≡ ok total
    → find o d.tables.sagas ≡ none
    → Stages o (("cmd.payment.charge", amounts total) ∷ []) d (hears now msg d)
unfolding Orchestrator.handler handle_once
start-Stages now o total msg d new key order cents absent =
    rw (key, order, cents, new, absent) (rw (append-nil (str o)) (map-append told d.outbox _))

told-two :
    (rows : List OutboxRow) (a b : OutboxRow)
    → map told ((rows ++ a ∷ []) ++ b ∷ []) ≡ map told rows ++ told a ∷ told b ∷ []
told-two [] a b = refl
told-two (r ∷ rows) a b = ap (λ l. told r ∷ l) (told-two rows a b)

module _ (re : Bool) (k now o total began : ℕ) (extra : Dict) (d : Orch) where
  abbrev pub Replies : String → Phase → List (String × Dict) → Type 0
  Replies rk p ms =
      elem (label rk o) d.processed ≡ false
      → find o d.tables.sagas ≡ some (row_of p o total began)
      → Stages o ms d (hears now (delivery_of re k o rk extra) d)

  pub charged-Stages :
      Replies "reply.payment.charged"
        (waiting charge)
        (("cmd.inventory.reserve", amounts total) ∷ [])
  unfolding Orchestrator.handler handle_once
  charged-Stages new row = rw (new, row) (rw (append-nil (str o)) (map-append told d.outbox _))

  pub reserved-Stages :
      Replies "reply.inventory.reserved"
        (waiting reserve)
        (("cmd.shipping.dispatch", amounts total) ∷ [])
  unfolding Orchestrator.handler handle_once
  reserved-Stages new row = rw (new, row) (rw (append-nil (str o)) (map-append told d.outbox _))

  pub dispatched-Stages :
      Replies "reply.shipping.dispatched"
        (waiting dispatch)
        (("order.shipped", item "final" (flag true) empty) ∷ [])
  unfolding Orchestrator.handler handle_once
  dispatched-Stages new row = rw (new, row) (rw (append-nil (str o)) (map-append told d.outbox _))

  pub failed-Stages :
      Replies "reply.shipping.failed"
        (waiting dispatch)
        (("cmd.inventory.release", amounts total) ∷ ("cmd.payment.refund", amounts total) ∷ [])
  unfolding Orchestrator.handler handle_once
  failed-Stages new row = rw (new, row) (rw (append-nil (str o)) (told-two d.outbox _ _))

  one_off :
      (n : ℕ)
      → find o d.tables.sagas ≡ some (row_of (undoing n) o total began)
      → find o (update o (λ s. record s { comp_pending = s.comp_pending -ℤ pos 1 }) d.tables.sagas)
        ≡ some (record (row_of (undoing n) o total began) { comp_pending = pos (suc n) -ℤ pos 1 })
  one_off n row =
      find-update o o (λ s. record s { comp_pending = s.comp_pending -ℤ pos 1 }) d.tables.sagas
      ∙ rw (==_refl o, row) refl

  pub released-Stages : Replies "reply.inventory.released" (undoing 1) []
  unfolding Orchestrator.handler handle_once ◌-ℤ◌
  released-Stages new row =
      rw (new, row) (rw (one_off 1 row) (sym (list_append_nil (map told d.outbox))))

  pub refunded-Stages :
      Replies "reply.payment.refunded"
        (undoing 0)
        (("order.cancelled", item "reason" (string "compensated") empty) ∷ [])
  unfolding Orchestrator.handler handle_once ◌-ℤ◌
  refunded-Stages new row =
      rw (new, row) (rw (one_off 0 row) (rw (append-nil (str o)) (map-append told d.outbox _)))
