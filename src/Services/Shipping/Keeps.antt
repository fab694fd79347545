-- ===== src/Services/Shipping/Keeps.antt =====
-- What the mark and the command of services/shipping-service/app/__main__.py keep, a delivery keeps.
use event_driven_demo.Base.{ℕ, inl, inr, str_eq, Bool-cases}
use event_driven_demo.Pyevents.Effect.{Result, ok, err, item_num}
use event_driven_demo.Pyevents.Db.{idle}
use event_driven_demo.Pyevents.Db.Once.{marked, handle_once_invariant}
use event_driven_demo.Pyevents.Consumer.{Message}
use event_driven_demo.Services.Shipping.{Shipping, ShippingState, work, run_command, handler}

module _ (I : Shipping → Type 0) (s : ShippingState) (msg : Message) (d : Shipping)
    (mark_keeps : I d → I (marked msg.event_id d))
    (work_keeps : (o : ℕ) (e : Shipping) → I e → I (work s.fail o e).1) (h : I d) where
  run_command_keeps : (r : Result ℕ) → I (run_command s.fail msg r (idle d)).1.committed
  unfolding run_command
  run_command_keeps (err e) = h
  run_command_keeps (ok o) = elim (Bool-cases (str_eq msg.routing_key "cmd.shipping.dispatch")) [
    | inl dispatched ↦ rw dispatched (
        handle_once_invariant msg.event_id (work s.fail o) d I (mark_keeps h)
          (work_keeps o (marked msg.event_id d)) h)
    | inr other ↦ rw other h
  ]

  pub handler_keeps : I (handler s msg (idle d)).1.committed
  unfolding handler
  handler_keeps = run_command_keeps (item_num "order_id" msg.body)
