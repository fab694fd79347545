-- ===== src/Services/Payment/Keeps.antt =====
-- What the mark and every command of services/payment-service/app/__main__.py keep, a delivery keeps.
use event_driven_demo.Base.{ℕ}
use event_driven_demo.Pyevents.Effect.{Result, ok, err, item_num, get_num}
use event_driven_demo.Pyevents.Db.{idle}
use event_driven_demo.Pyevents.Db.Once.{marked, handle_once_invariant}
use event_driven_demo.Pyevents.Consumer.{Message}
use event_driven_demo.Services.Payment.{Payments, PaymentState, work, run_command, handler}

module _ (I : Payments → Type 0) (s : PaymentState) (msg : Message) (d : Payments)
    (mark_keeps : I d → I (marked msg.event_id d))
    (work_keeps : (o n : ℕ) (e : Payments) → I e → I (work s.fail msg.routing_key o n e).1)
    (h : I d) where
  run_command_keeps : (r q : Result ℕ) → I (run_command s.fail msg r q (idle d)).1.committed
  unfolding run_command
  run_command_keeps (err e) q = h
  run_command_keeps (ok o) (err e) = h
  run_command_keeps (ok o) (ok n) =
      handle_once_invariant msg.event_id (work s.fail msg.routing_key o n) d I (mark_keeps h)
        (work_keeps o n (marked msg.event_id d)) h

  pub handler_keeps : I (handler s msg (idle d)).1.committed
  unfolding handler
  handler_keeps =
      run_command_keeps (item_num "order_id" msg.body) (get_num "amount_cents" 0 msg.body)
