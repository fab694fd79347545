-- ===== src/Services/Orchestrator/Tests.antt =====
-- Runs of services/orchestrator/app/__main__.py on concrete messages.
use event_driven_demo.Base.{◌≡◌, refl, String, false, List, [], ◌∷◌, map}
use event_driven_demo.Base.Int.{◌-ℤ◌}
use event_driven_demo.Base.Text.{str}
use event_driven_demo.Pyevents.Json.{num, Dict, empty, item}
use event_driven_demo.Pyevents.Db.{Conn, idle}
use event_driven_demo.Pyevents.Consumer.{Message}
use event_driven_demo.Pyevents.Saga.{Orch}
use event_driven_demo.Services.Orchestrator.{handler}
use event_driven_demo.Services.Orchestrator.Timeouts.{watchdog}

abbrev no_orders : Orch
no_orders = record {
  tables = record { sagas = []; saga_log = [] };
  processed = [];
  outbox = [];
  next_id = 1;
}

abbrev message : String → String → Dict → Message
message rk eid body = record {
  routing_key = rk;
  body = body;
  event_id = eid;
  redelivered = false;
  attempt = 1;
}

abbrev placed : Message
placed =
    message "order.placed" "uuid" (item "order_id" (num 7) (item "total_cents" (num 500) empty))

abbrev reply : String → Message
reply rk = message rk rk (item "order_id" (num 7) empty)

abbrev run : List Message → Conn Orch → Conn Orch
run [] c = c
run (m ∷ ms) c = run ms (handler 0 m c).1

abbrev happy : Conn Orch
happy =
    run
      (placed
        ∷ reply "reply.payment.charged"
        ∷ reply "reply.inventory.reserved"
        ∷ reply "reply.shipping.dispatched"
        ∷ [])
      (idle no_orders)

happy_completes :
    map (λ r. r.event_id) happy.committed.outbox
    ≡ "cmd.payment.charge:7" ∷ "cmd.inventory.reserve:7" ∷ "cmd.shipping.dispatch:7"
      ∷ "order.shipped:7" ∷ []
unfolding handler str
happy_completes = refl

-- The second release has an id of its own.
abbrev late : Conn Orch
late =
    run
      (reply "reply.inventory.reserved"
        ∷ reply "reply.inventory.released"
        ∷ reply "reply.payment.refunded"
        ∷ [])
      (watchdog 100 12 (λ _. false)
        (run (placed ∷ reply "reply.payment.charged" ∷ []) (idle no_orders)))

late_releases :
    map (λ r. r.event_id) late.committed.outbox
    ≡ "cmd.payment.charge:7" ∷ "cmd.inventory.reserve:7" ∷ "cmd.inventory.release:7"
      ∷ "cmd.payment.refund:7" ∷ "cmd.inventory.release:7.late" ∷ "order.cancelled:7" ∷ []
unfolding handler str watchdog ◌-ℤ◌
late_releases = refl
