-- ===== src/Services/Payment/Repeats.antt =====
-- A command that is delivered again to services/payment-service/app/__main__.py changes nothing.
use event_driven_demo.Base.{ℕ, ◌≡◌, refl, String, Bool, arith}
use event_driven_demo.Pyevents.Effect.{Result, ok, err, item_num, get_num}
use event_driven_demo.Pyevents.Db.{idle}
use event_driven_demo.Pyevents.Db.Once.{handle_once_repeat, handle_once_returns}
use event_driven_demo.Pyevents.Consumer.{Message}
use event_driven_demo.Services.Payment.{Payments, PaymentState, work, run_command, handler}

work-processed :
    (fail : Bool) (cmd : String) (o n : ℕ) (d : Payments)
    → (work fail cmd o n d).1.processed ≡ d.processed
unfolding work
work-processed fail cmd o n d = ground arith

work_returns :
    (fail : Bool) (cmd : String) (o n : ℕ) (d : Payments) → (work fail cmd o n d).0 ≡ ok tt
unfolding work
work_returns fail cmd o n d = ground arith

run_command_repeat :
    (fail fail' : Bool) (msg : Message) (r q : Result ℕ) (d : Payments)
    → let d' = (run_command fail msg r q (idle d)).1.committed in
      (run_command fail' msg r q (idle d')).1 ≡ idle d'
unfolding run_command
run_command_repeat fail fail' msg (err e) q d = refl
run_command_repeat fail fail' msg (ok o) (err e) d = refl
run_command_repeat fail fail' msg (ok o) (ok n) d = λ i.
    (handle_once_repeat msg.event_id (work fail msg.routing_key o n)
      (work fail' msg.routing_key o n) d (work-processed fail msg.routing_key o n _)
      (work_returns fail msg.routing_key o n _) i).1

-- A command that is delivered twice is applied once: the second delivery leaves the database as the
-- first has committed it, also when the failure switch has been changed in between.
pub payment_repeat :
    (s s' : PaymentState) (msg : Message) (d : Payments)
    → let d' = (handler s msg (idle d)).1.committed in (handler s' msg (idle d')).1 ≡ idle d'
unfolding handler
payment_repeat s s' msg d =
    run_command_repeat s.fail s'.fail msg (item_num "order_id" msg.body)
      (get_num "amount_cents" 0 msg.body) d

-- A command with an order and an amount is handled.
pub handler_returns :
    (s : PaymentState) (msg : Message) (d : Payments) (o n : ℕ)
    → item_num "order_id" msg.body ≡ ok o
    → get_num "amount_cents" 0 msg.body ≡ ok n
    → (handler s msg (idle d)).0 ≡ ok tt
unfolding handler run_command
handler_returns s msg d o n order amount =
    rw (order, amount)
      (handle_once_returns msg.event_id (work s.fail msg.routing_key o n) d
        (work_returns s.fail msg.routing_key o n _))
