-- ===== src/System/Routing.antt =====
-- What services/orchestrator/app/__main__.py sends reaches the service that it is for, under the
-- declarations of infra/topology.py.
use text.Mathlib.Text.{starts_with}
use event_driven_demo.Base.{
  true, false, elem, ℕ, zero, suc, ◌≡◌, refl, ◌∙◌, inl, inr, String, Bool, Option, none, some, List,
  [], ◌∷◌, All, All-append, if◌then◌else◌,
}
use event_driven_demo.Pyevents.Saga.{Step, step_command, charge, reserve, dispatch}
use event_driven_demo.Services.Orchestrator.Machine.{
  Phase, waiting, undoing, shipped, dropped, Reply, was_charged, charge_failed, was_reserved,
  reserve_failed, was_dispatched, dispatch_failed, was_refunded, was_released, on_message, on_reply,
  on_timeout, on_failure, on_undone,
}
use event_driven_demo.Services.Orchestrator.Trace.{Trace, begun, heard, gave_up}
use event_driven_demo.Services.Orchestrator.Orders.{history}
use event_driven_demo.Services.Orchestrator.Outcome.{
  Event, run, fresh_db, fresh-AllSound, run-AllSound,
}
use event_driven_demo.Infra.Topology.{Kind, commands, events, declare}
use event_driven_demo.Infra.Topology.Routes.{
  Compares, kind_of, receivers_of-unbound, compare_keys, receivers, receivers-compare_keys,
}

-- The queue of the service that a message is for, by the first words of its routing key.
abbrev pub addressee : String → Option String
addressee rk =
    if starts_with rk "cmd.payment."
    then some "payment.cmd.q"
    else if starts_with rk "cmd.inventory."
    then some "inventory.cmd.q"
    else if starts_with rk "cmd.shipping."
    then some "shipping.cmd.q"
    else if starts_with rk "order."
    then some "order.q"
    else none

-- The message gets to the service that it is for, and besides only to the observer.
abbrev pub Reaches : (Kind → String → String → Bool) → String → Type 0
Reaches accepts rk =
    (queue : String) × (addressee rk ≡ some queue)
    × (receivers accepts commands rk ≡ queue ∷ "observer.q" ∷ [])

module _ (accepts : Kind → String → String → Bool) (c : Compares accepts) where
  by_table :
      (rk queue : String)
      → addressee rk ≡ some queue
      → receivers compare_keys commands rk ≡ queue ∷ "observer.q" ∷ []
      → Reaches accepts rk
  by_table rk queue home table = (queue, home, receivers-compare_keys accepts c rk commands ∙ table)

  step-Reaches : (step : Step) → Reaches accepts (step_command step)
  unfolding receivers declare
  step-Reaches charge = by_table "cmd.payment.charge" "payment.cmd.q" refl refl
  step-Reaches reserve = by_table "cmd.inventory.reserve" "inventory.cmd.q" refl refl
  step-Reaches dispatch = by_table "cmd.shipping.dispatch" "shipping.cmd.q" refl refl

  refund-Reaches : Reaches accepts "cmd.payment.refund"
  unfolding receivers declare
  refund-Reaches = by_table "cmd.payment.refund" "payment.cmd.q" refl refl

  release-Reaches : Reaches accepts "cmd.inventory.release"
  unfolding receivers declare
  release-Reaches = by_table "cmd.inventory.release" "inventory.cmd.q" refl refl

  shipped-Reaches : Reaches accepts "order.shipped"
  unfolding receivers declare
  shipped-Reaches = by_table "order.shipped" "order.q" refl refl

  cancelled-Reaches : Reaches accepts "order.cancelled"
  unfolding receivers declare
  cancelled-Reaches = by_table "order.cancelled" "order.q" refl refl

  on_failure-Reaches : (step : Step) → All (Reaches accepts) (on_failure step).sends
  on_failure-Reaches charge = (cancelled-Reaches, tt)
  on_failure-Reaches reserve = (refund-Reaches, tt)
  on_failure-Reaches dispatch = (release-Reaches, (refund-Reaches, tt))

  on_timeout-Reaches : (step : Step) → All (Reaches accepts) (on_timeout step).sends
  on_timeout-Reaches charge = (refund-Reaches, tt)
  on_timeout-Reaches reserve = (release-Reaches, (refund-Reaches, tt))
  on_timeout-Reaches dispatch = (release-Reaches, (refund-Reaches, tt))

  on_undone-Reaches : (n : ℕ) → All (Reaches accepts) (on_undone n).sends
  on_undone-Reaches zero = (cancelled-Reaches, tt)
  on_undone-Reaches (suc n) = tt

  on_reply-Reaches : (p : Phase) (r : Reply) → All (Reaches accepts) (on_reply p r).sends
  on_reply-Reaches (waiting charge) was_charged = (step-Reaches reserve, tt)
  on_reply-Reaches (waiting charge) charge_failed = on_failure-Reaches charge
  on_reply-Reaches (waiting reserve) was_reserved = (step-Reaches dispatch, tt)
  on_reply-Reaches (waiting reserve) reserve_failed = on_failure-Reaches reserve
  on_reply-Reaches (waiting dispatch) was_dispatched = (shipped-Reaches, tt)
  on_reply-Reaches (waiting dispatch) dispatch_failed = on_failure-Reaches dispatch
  on_reply-Reaches (undoing n) was_refunded = on_undone-Reaches n
  on_reply-Reaches (undoing n) was_released = on_undone-Reaches n
  on_reply-Reaches (undoing n) was_reserved = (release-Reaches, tt)
  on_reply-Reaches shipped was_reserved = (release-Reaches, tt)
  on_reply-Reaches dropped was_reserved = (release-Reaches, tt)
  on_reply-Reaches _ _ = tt

  on_message-Reaches : (p : Phase) (r : Option Reply) → All (Reaches accepts) (on_message p r).sends
  on_message-Reaches p none = tt
  on_message-Reaches p (some r) = on_reply-Reaches p r

  Trace-Reaches : {p : Phase} {out : List String} → Trace p out → All (Reaches accepts) out
  Trace-Reaches begun = (step-Reaches charge, tt)
  Trace-Reaches (heard {p} {out} life r) =
      All-append (Reaches accepts) out (on_message p r).sends (Trace-Reaches life)
        (on_message-Reaches p r)
  Trace-Reaches (gave_up {step} {out} life) =
      All-append (Reaches accepts) out (on_timeout step).sends (Trace-Reaches life)
        (on_timeout-Reaches step)

  -- Whatever has been delivered to the orchestrator and however often its watchdog has run, every
  -- message that it has staged for an order reaches, on the exchange that its relay publishes on, the
  -- queue of the service that its routing key names, and besides only the observer's.
  pub messages_reach :
      (es : List Event) (j : ℕ) → All (Reaches accepts) (history j (run es fresh_db))
  messages_reach es j = elim ((run-AllSound es fresh_db fresh-AllSound).sound j) [
    | inl (absent, quiet) ↦ rw quiet tt
    | inr (p, i, total, began, row, life) ↦ Trace-Reaches life
  ]

  -- Nothing that is published on the orchestrator's exchange reaches notification-service, whatever
  -- its routing key; order.shipped and order.cancelled would reach it on the exchange of order-service.
  pub notification_deaf :
      (rk : String)
      → (elem "notification.q" (receivers accepts commands rk) ≡ false)
        × (elem "notification.q" (receivers accepts events "order.shipped") ≡ true)
        × (elem "notification.q" (receivers accepts events "order.cancelled") ≡ true)
  unfolding receivers declare
  notification_deaf rk = (
    receivers_of-unbound accepts (kind_of commands declare) "notification.q" commands rk declare
        refl,
    rw (receivers-compare_keys accepts c "order.shipped" events) refl,
    rw (receivers-compare_keys accepts c "order.cancelled" events) refl,
  )
