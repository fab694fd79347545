-- ===== src/Services/Orchestrator/Machine.antt =====
-- The state machine of one order as the docstring of libs/pyevents/pyevents/saga.py draws it, with
-- the messages that each move sends. It is written without the code's tables.
use event_driven_demo.Base.{
  ℕ, zero, suc, ◌≡◌, refl, ap, ◌≢◌, String, List, [], ◌∷◌, Option, none, some, arith, eq_iff,
  str_eq, if◌then◌else◌,
}
use event_driven_demo.Pyevents.Saga.{Step, charge, reserve, dispatch}

-- What the services answer.
pub data Reply : Type 0 where
  was_charged charge_failed was_reserved reserve_failed : Reply
  was_dispatched dispatch_failed was_refunded was_released : Reply

abbrev pub reply_text : Reply → String
reply_text was_charged = "reply.payment.charged"
reply_text charge_failed = "reply.payment.failed"
reply_text was_reserved = "reply.inventory.reserved"
reply_text reserve_failed = "reply.inventory.failed"
reply_text was_dispatched = "reply.shipping.dispatched"
reply_text dispatch_failed = "reply.shipping.failed"
reply_text was_refunded = "reply.payment.refunded"
reply_text was_released = "reply.inventory.released"

-- `undoing n` waits for `n + 1` compensating replies.
pub data Phase : Type 0 where
  waiting : Step → Phase
  undoing : ℕ → Phase
  shipped dropped : Phase

pub record Move : Type 0 where
  pub to : Phase
  pub sends : List String

abbrev move : Phase → List String → Move
move p out = record { to = p; sends = out }

abbrev pub drop : Move
drop = move dropped ("order.cancelled" ∷ [])

abbrev pub refund_only : Move
refund_only = move (undoing 0) ("cmd.payment.refund" ∷ [])

abbrev pub release_and_refund : Move
release_and_refund = move (undoing 1) ("cmd.inventory.release" ∷ "cmd.payment.refund" ∷ [])

-- The service says that the step did not happen: undo the steps before it.
abbrev pub on_failure : Step → Move
on_failure charge = drop
on_failure reserve = refund_only
on_failure dispatch = release_and_refund

-- Nothing is known of the step: undo it as well.
abbrev pub on_timeout : Step → Move
on_timeout charge = refund_only
on_timeout reserve = release_and_refund
on_timeout dispatch = release_and_refund

abbrev pub on_undone : ℕ → Move
on_undone zero = drop
on_undone (suc n) = move (undoing n) []

abbrev pub release_again : Phase → Move
release_again p = move p ("cmd.inventory.release" ∷ [])

abbrev pub on_reply : Phase → Reply → Move
on_reply (waiting charge) was_charged = move (waiting reserve) ("cmd.inventory.reserve" ∷ [])
on_reply (waiting charge) charge_failed = on_failure charge
on_reply (waiting reserve) was_reserved = move (waiting dispatch) ("cmd.shipping.dispatch" ∷ [])
on_reply (waiting reserve) reserve_failed = on_failure reserve
on_reply (waiting dispatch) was_dispatched = move shipped ("order.shipped" ∷ [])
on_reply (waiting dispatch) dispatch_failed = on_failure dispatch
on_reply (undoing n) was_refunded = on_undone n
on_reply (undoing n) was_released = on_undone n
on_reply (undoing n) was_reserved = release_again (undoing n)
on_reply shipped was_reserved = release_again shipped
on_reply dropped was_reserved = release_again dropped
on_reply p r = move p []

abbrev pub on_placed : Option Phase → Move
on_placed none = move (waiting charge) ("cmd.payment.charge" ∷ [])
on_placed (some p) = move p []

-- Which answer a routing key stands for, if any.
abbrev pub reply_of : String → Option Reply
reply_of rk =
    if str_eq rk (reply_text was_charged)
    then some was_charged
    else if str_eq rk (reply_text charge_failed)
    then some charge_failed
    else if str_eq rk (reply_text was_reserved)
    then some was_reserved
    else if str_eq rk (reply_text reserve_failed)
    then some reserve_failed
    else if str_eq rk (reply_text was_dispatched)
    then some was_dispatched
    else if str_eq rk (reply_text dispatch_failed)
    then some dispatch_failed
    else if str_eq rk (reply_text was_refunded)
    then some was_refunded
    else if str_eq rk (reply_text was_released)
    then some was_released
    else none

pub reply_of-some : (rk : String) (r : Reply) → reply_of rk ≡ some r → rk ≡ reply_text r
reply_of-some rk r h = ground (
  arith,
  eq_iff rk (reply_text was_charged),
  eq_iff rk (reply_text charge_failed),
  eq_iff rk (reply_text was_reserved),
  eq_iff rk (reply_text reserve_failed),
  eq_iff rk (reply_text was_dispatched),
  eq_iff rk (reply_text dispatch_failed),
  eq_iff rk (reply_text was_refunded),
  eq_iff rk (reply_text was_released),
)

reply_of-reply_text : (r : Reply) → reply_of (reply_text r) ≡ some r
reply_of-reply_text was_charged = refl
reply_of-reply_text _ = refl

pub reply_of-none : (rk : String) (r : Reply) → reply_of rk ≡ none → rk ≢ reply_text r
reply_of-none rk r h e = cc (reply_of-reply_text r, ap reply_of e)

-- A message with any routing key; one that is no answer changes nothing.
abbrev pub on_message : Phase → Option Reply → Move
on_message p none = move p []
on_message p (some r) = on_reply p r
