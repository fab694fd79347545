-- ===== src/Services/Payment.antt =====
-- services/payment-service/app/__main__.py and the tables of its schema.sql.
pub mod Ledger
pub mod Booked
pub mod Keeps
pub mod Repeats
use Prim.Native.String.{◌++◌ as text_append}
use event_driven_demo.Base.{ℕ, String, Bool, true, false, str_eq, if◌then◌else◌}
use event_driven_demo.Base.Int.{ℤ, pos, ◌+ℤ◌, ◌-ℤ◌}
use event_driven_demo.Base.Text.{str}
use event_driven_demo.Base.Table.{Table, find, insert_new, delete}
use event_driven_demo.Pyevents.Json.{Json, num, string, Dict, empty, item, get}
use event_driven_demo.Pyevents.Effect.{
  Result, ok, err, ⊤, Action, pure, modify, ◌>>◌, item_num, get_num,
}
use event_driven_demo.Pyevents.Db.{Store, Conn, handle_once, once}
use event_driven_demo.Pyevents.Outbox.{stage_event}
use event_driven_demo.Pyevents.Consumer.{Message}
use event_driven_demo.Services.Control.{
  Switches, set_duplicate_mode, set_relay_paused, says, truthy,
}

-- `payments` holds `charged_cents` by order; the one row of `ledger` is its total.
pub record PaymentDb : Type 0 where
  pub payments : Table ℕ
  pub total_charged_cents : ℤ

abbrev pub Payments : Type 0
Payments = Store PaymentDb

-- `_state`, with the switches of the process.
pub record PaymentState : Type 0 where
  pub fail : Bool
  pub switches : Switches

unfoldable pub on_command : Dict → PaymentState → PaymentState
unfolding set_duplicate_mode set_relay_paused
on_command command s =
    let value = truthy (get "value" command) in
    if says "action" "duplicate" command
    then record s { switches = set_duplicate_mode value s.switches }
    else if says "action" "pause_relay" command
    then record s { switches = set_relay_paused value s.switches }
    else if says "target" "payment" command
    then (if says "action" "fail" command then record s { fail = value } else s)
    else s

-- `extra` never has the two keys that are put before it.
unfoldable pub reply : ℕ → String → Dict → Action Payments ⊤
unfolding stage_event
reply order_id routing_key extra =
    let eid = text_append routing_key (text_append ":" (str order_id)) in
    stage_event eid routing_key
      (item "event_id" (string eid) (item "order_id" (num order_id) extra))

-- INSERT INTO payments … ON CONFLICT DO NOTHING
unfoldable pub insert_payment : ℕ → ℕ → Action Payments ⊤
insert_payment order_id amount = modify λ d. record d {
  tables = record d.tables { payments = insert_new order_id amount d.tables.payments };
}

-- DELETE FROM payments
unfoldable pub delete_payment : ℕ → Action Payments ⊤
delete_payment order_id =
    modify
      λ d. record d { tables = record d.tables { payments = delete order_id d.tables.payments } }

-- UPDATE ledger SET total_charged_cents = …, where the BIGINT column holds the sum.
unfoldable pub update_ledger : (ℤ → ℤ) → Action Payments ⊤
update_ledger f = modify λ d. record d {
  tables = record d.tables { total_charged_cents = f d.tables.total_charged_cents };
}

unfoldable pub charge : Bool → ℕ → ℕ → Action Payments ⊤
unfolding reply insert_payment update_ledger
charge fail order_id amount =
    if fail
    then reply order_id "reply.payment.failed" (item "reason" (string "declined") empty)
    else insert_payment order_id amount
      >> update_ledger (λ t. t +ℤ pos amount)
      >> reply order_id "reply.payment.charged" (item "amount_cents" (num amount) empty)

unfoldable pub refund : ℕ → ℕ → Action Payments ⊤
unfolding reply delete_payment update_ledger
refund order_id amount =
    delete_payment order_id
    >> update_ledger (λ t. t -ℤ pos amount)
    >> reply order_id "reply.payment.refunded" (item "amount_cents" (num amount) empty)

-- The body under `handle_once`, for a first delivery.
unfoldable pub work : Bool → String → ℕ → ℕ → Action Payments ⊤
unfolding charge refund
work fail cmd order_id amount =
    if str_eq cmd "cmd.payment.charge"
    then charge fail order_id amount
    else if str_eq cmd "cmd.payment.refund"
    then refund order_id amount
    else pure tt

run_command : Bool → Message → Result ℕ → Result ℕ → Conn Payments → Result ⊤ × Conn Payments
unfolding handle_once work
run_command fail msg (err e) amount c = (err e, c)
run_command fail msg (ok order_id) (err e) c = (err e, c)
run_command fail msg (ok order_id) (ok amount) c =
    handle_once msg.event_id (once (work fail msg.routing_key order_id amount)) c

unfoldable pub handler : PaymentState → Message → Conn Payments → Result ⊤ × Conn Payments
unfolding run_command
handler s msg =
    run_command s.fail msg (item_num "order_id" msg.body) (get_num "amount_cents" 0 msg.body)
