-- ===== src/Services/Orchestrator/Steps.antt =====
-- Each function of services/orchestrator/app/__main__.py that a handler calls, by the rules for
-- its statements.
use event_driven_demo.Base.{ℕ, suc, String, none, some, List, [], ◌∷◌}
use event_driven_demo.Base.Int.{pos}
use event_driven_demo.Pyevents.Saga.{
  completed, compensating, cancelled, Step, step_command, Saga, state_row,
}
use event_driven_demo.Services.Orchestrator.{
  waiting_state, send_step, finish_completed, finish_cancelled, emit_all, amount_body,
}
use event_driven_demo.Services.Orchestrator.Machine.{Phase, waiting, undoing, shipped, dropped}
use event_driven_demo.Services.Orchestrator.Turns.{
  Turns, Turns-pure, Turns-emit, Turns-set_state, Turns-seq,
}

-- The row of a saga in a phase, between two transactions. `began` counts only while it waits.
abbrev pub row_of : Phase → ℕ → ℕ → ℕ → Saga
row_of (waiting step) order_id total began = record {
  order_id = order_id;
  state = waiting_state step;
  total_cents = total;
  awaiting = some step;
  comp_pending = pos 0;
  step_started = some began;
}
row_of (undoing n) order_id total began = record {
  order_id = order_id;
  state = compensating;
  total_cents = total;
  awaiting = none;
  comp_pending = pos (suc n);
  step_started = none;
}
row_of shipped order_id total began = record {
  order_id = order_id;
  state = completed;
  total_cents = total;
  awaiting = none;
  comp_pending = pos 0;
  step_started = none;
}
row_of dropped order_id total began = record {
  order_id = order_id;
  state = cancelled;
  total_cents = total;
  awaiting = none;
  comp_pending = pos 0;
  step_started = none;
}

module _ (now o : ℕ) (s : Saga) where
  pub Turns-send_step :
      (step : Step) (total : ℕ)
      → Turns o s
          (send_step now o step total)
          (state_row now (waiting_state step) (some step) none s)
          (step_command step ∷ [])
  unfolding send_step
  Turns-send_step step total =
      Turns-seq _ _ (step_command step ∷ []) [] (Turns-emit o s now (step_command step) _ _)
        (Turns-set_state o s now _ _ none)

  pub Turns-finish_completed :
      Turns o s
        (finish_completed now o)
        (state_row now completed none none s)
        ("order.shipped" ∷ [])
  unfolding finish_completed
  Turns-finish_completed =
      Turns-seq _ _ [] ("order.shipped" ∷ []) (Turns-set_state o s now _ _ none)
        (Turns-emit o _ now "order.shipped" _ _)

  pub Turns-finish_cancelled :
      (reason : String)
      → Turns o s
          (finish_cancelled now o reason)
          (state_row now cancelled none none s)
          ("order.cancelled" ∷ [])
  unfolding finish_cancelled
  Turns-finish_cancelled reason =
      Turns-seq _ _ [] ("order.cancelled" ∷ []) (Turns-set_state o s now _ _ none)
        (Turns-emit o _ now "order.cancelled" _ _)

pub Turns-emit_all :
    (now o : ℕ) (s : Saga) (total : ℕ) (rks : List String)
    → Turns o s (emit_all now o total rks) s rks
unfolding emit_all
Turns-emit_all now o s total [] = Turns-pure o s
Turns-emit_all now o s total (rk ∷ rks) =
    Turns-seq _ _ (rk ∷ []) rks (Turns-emit o s now rk (amount_body total) "")
      (Turns-emit_all now o s total rks)
