-- ===== src/Services/Shipping.antt =====
-- services/shipping-service/app/__main__.py and the table of its schema.sql.
pub mod Keeps
pub mod Repeats
use Prim.Native.String.{◌++◌ as text_append}
use event_driven_demo.Base.{ℕ, String, Bool, str_eq, if◌then◌else◌}
use event_driven_demo.Base.Text.{str}
use event_driven_demo.Base.Table.{Table, insert_new}
use event_driven_demo.Pyevents.Json.{num, string, Dict, empty, item, get}
use event_driven_demo.Pyevents.Effect.{Result, ok, err, ⊤, Action, modify, ◌>>◌, item_num}
use event_driven_demo.Pyevents.Db.{Store, Conn, handle_once, once}
use event_driven_demo.Pyevents.Outbox.{stage_event}
use event_driven_demo.Pyevents.Consumer.{Message}
use event_driven_demo.Services.Control.{
  Switches, set_duplicate_mode, set_relay_paused, says, truthy,
}

-- `shipments` holds the tracking code by order.
pub record ShippingDb : Type 0 where
  pub shipments : Table String

abbrev pub Shipping : Type 0
Shipping = Store ShippingDb

pub record ShippingState : Type 0 where
  pub fail : Bool
  pub switches : Switches

unfoldable pub on_command : Dict → ShippingState → ShippingState
unfolding set_duplicate_mode set_relay_paused
on_command command s =
    let value = truthy (get "value" command) in
    if says "action" "duplicate" command
    then record s { switches = set_duplicate_mode value s.switches }
    else if says "action" "pause_relay" command
    then record s { switches = set_relay_paused value s.switches }
    else if says "target" "shipping" command
    then (if says "action" "fail" command then record s { fail = value } else s)
    else s

unfoldable pub reply : ℕ → String → Dict → Action Shipping ⊤
unfolding stage_event
reply order_id routing_key extra =
    let eid = text_append routing_key (text_append ":" (str order_id)) in
    stage_event eid routing_key
      (item "event_id" (string eid) (item "order_id" (num order_id) extra))

unfoldable pub insert_shipment : ℕ → String → Action Shipping ⊤
insert_shipment order_id tracking = modify λ d. record d {
  tables = record d.tables { shipments = insert_new order_id tracking d.tables.shipments };
}

-- The body under `handle_once`, for a first delivery.
unfoldable pub work : Bool → ℕ → Action Shipping ⊤
unfolding reply insert_shipment
work fail order_id =
    let tracking = text_append "TRK-" (str order_id) in
    if fail
    then reply order_id "reply.shipping.failed" (item "reason" (string "no courier") empty)
    else insert_shipment order_id tracking
      >> reply order_id "reply.shipping.dispatched" (item "tracking_code" (string tracking) empty)

run_command : Bool → Message → Result ℕ → Conn Shipping → Result ⊤ × Conn Shipping
unfolding handle_once work
run_command fail msg (err e) c = (err e, c)
run_command fail msg (ok order_id) c =
    if str_eq msg.routing_key "cmd.shipping.dispatch"
    then handle_once msg.event_id (once (work fail order_id)) c
    else (ok tt, c)

unfoldable pub handler : ShippingState → Message → Conn Shipping → Result ⊤ × Conn Shipping
unfolding run_command
handler s msg = run_command s.fail msg (item_num "order_id" msg.body)
