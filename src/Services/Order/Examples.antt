-- ===== src/Services/Order/Examples.antt =====
-- The theorems on services/order-service/app/, each at one concrete input.
use event_driven_demo.Base.{List, map, ◌≡◌, false, [], ◌∷◌}
use event_driven_demo.Pyevents.Json.{num, empty, item}
use event_driven_demo.Pyevents.Consumer.{Message}
use event_driven_demo.Services.Order.{PlaceOrder}
use event_driven_demo.Services.Order.Paired.{
  Step, posted, heard, run, no_orders, announced, due, orders_announced,
}

abbrev request : PlaceOrder
request = record {
  customer_id = "c";
  items = record { sku = "WIDGET-1"; qty = 2 } ∷ [];
  total_cents = 500;
}

abbrev shipped_message : Message
shipped_message = record {
  routing_key = "order.shipped";
  body = item "order_id" (num 7) empty;
  event_id = "order.shipped:7";
  redelivered = false;
  attempt = 1;
}

-- Two requests, one with a total that no BIGINT holds and one without articles, and an outcome.
abbrev shop : List Step
shop =
    posted "u1" "now" request
    ∷ posted "u2" "now" (record request { total_cents = 9223372036854775808 })
    ∷ posted "u3" "now" (record request { items = [] })
    ∷ heard shipped_message
    ∷ []

orders_announced_example :
    let d = run shop (no_orders 7) in map announced d.outbox ≡ due d.tables.orders
orders_announced_example = orders_announced shop 7
