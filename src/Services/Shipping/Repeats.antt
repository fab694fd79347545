-- ===== src/Services/Shipping/Repeats.antt =====
-- A command that is delivered again to services/shipping-service/app/__main__.py changes nothing.
use event_driven_demo.Base.{ℕ, ◌≡◌, refl, Bool, arith, str_eq, Bool-cases, inl, inr}
use event_driven_demo.Pyevents.Effect.{Result, ok, err, item_num}
use event_driven_demo.Pyevents.Db.{idle}
use event_driven_demo.Pyevents.Db.Once.{handle_once_repeat, handle_once_returns}
use event_driven_demo.Pyevents.Consumer.{Message}
use event_driven_demo.Services.Shipping.{Shipping, ShippingState, work, run_command, handler}

work-processed : (fail : Bool) (o : ℕ) (d : Shipping) → (work fail o d).1.processed ≡ d.processed
unfolding work
work-processed fail o d = ground arith

work_returns : (fail : Bool) (o : ℕ) (d : Shipping) → (work fail o d).0 ≡ ok tt
unfolding work
work_returns fail o d = ground arith

run_command_repeat :
    (fail fail' : Bool) (msg : Message) (r : Result ℕ) (d : Shipping)
    → let d' = (run_command fail msg r (idle d)).1.committed in
      (run_command fail' msg r (idle d')).1 ≡ idle d'
unfolding run_command
run_command_repeat fail fail' msg (err e) d = refl
run_command_repeat fail fail' msg (ok o) d =
    elim (Bool-cases (str_eq msg.routing_key "cmd.shipping.dispatch")) [
      | inl dispatched ↦ rw dispatched (λ i.
          (handle_once_repeat msg.event_id (work fail o) (work fail' o) d (work-processed fail o _)
            (work_returns fail o _) i).1)
      | inr other ↦ rw other refl
    ]

-- A command that is delivered twice is applied once: the second delivery leaves the database as the
-- first has committed it, also when the failure switch has been changed in between.
pub shipping_repeat :
    (s s' : ShippingState) (msg : Message) (d : Shipping)
    → let d' = (handler s msg (idle d)).1.committed in (handler s' msg (idle d')).1 ≡ idle d'
unfolding handler
shipping_repeat s s' msg d = run_command_repeat s.fail s'.fail msg (item_num "order_id" msg.body) d

-- A command with an order is handled.
pub handler_returns :
    (s : ShippingState) (msg : Message) (d : Shipping) (o : ℕ)
    → item_num "order_id" msg.body ≡ ok o
    → (handler s msg (idle d)).0 ≡ ok tt
unfolding handler run_command
handler_returns s msg d o order =
    rw order (elim (Bool-cases (str_eq msg.routing_key "cmd.shipping.dispatch")) [
      | inl dispatched ↦
          rw dispatched
            (handle_once_returns msg.event_id (work s.fail o) d (work_returns s.fail o _))
      | inr other ↦ rw other refl
    ])
