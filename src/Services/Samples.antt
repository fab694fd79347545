-- ===== src/Services/Samples.antt =====
-- Messages, switches and databases for the examples.
use event_driven_demo.Base.{String, false, []}
use event_driven_demo.Base.Int.{pos}
use event_driven_demo.Pyevents.Json.{Dict, num, item, empty}
use event_driven_demo.Pyevents.Consumer.{Message}
use event_driven_demo.Services.Payment.{Payments, PaymentState}
use event_driven_demo.Services.Inventory.{InventoryState}
use event_driven_demo.Services.Shipping.{Shipping, ShippingState}

abbrev pub message : String → String → Dict → Message
message rk eid body = record {
  routing_key = rk;
  body = body;
  event_id = eid;
  redelivered = false;
  attempt = 1;
}

abbrev pub no_payments : Payments
no_payments = record {
  tables = record { payments = []; total_charged_cents = pos 0 };
  processed = [];
  outbox = [];
  next_id = 1;
}

abbrev pub accepting : PaymentState
accepting = record {
  fail = false;
  switches = record { duplicate_mode = false; relay_paused = false };
}

abbrev pub charge_command : Message
charge_command =
    message "cmd.payment.charge" "cmd.payment.charge:7"
      (item "order_id" (num 7) (item "amount_cents" (num 500) empty))

abbrev pub stocked : InventoryState
stocked = record {
  slow_ms = 0;
  fail = false;
  silent = false;
  switches = record { duplicate_mode = false; relay_paused = false };
}

abbrev pub stock_command : String → String → Message
stock_command rk eid = message rk eid (item "order_id" (num 7) empty)

abbrev pub no_shipments : Shipping
no_shipments = record {
  tables = record { shipments = [] };
  processed = [];
  outbox = [];
  next_id = 1;
}

abbrev pub couriers : ShippingState
couriers = record {
  fail = false;
  switches = record { duplicate_mode = false; relay_paused = false };
}
