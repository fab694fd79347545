-- ===== src/Services/Orchestrator.antt =====
-- services/orchestrator/app/__main__.py: the saga of each order. `now` is the time of the
-- transaction; every action works on the caller's cursor.
pub mod Lab
pub mod Machine
pub mod Turns
pub mod Steps
pub mod Refine
pub mod Replies
pub mod Trace
pub mod Orders
pub mod Keep
pub mod Timeouts
pub mod Watchdog
pub mod Expired
pub mod Rounds
pub mod Race
pub mod Returns
pub mod Outcome
pub mod Start
pub mod Converge
mod Tests
mod Examples
use Prim.Native.Char.{code}
use Prim.Native.String.{◌++◌ as text_append}
use text.Mathlib.Text.{starts_with}
use event_driven_demo.Base.{
  ℕ, ◌+◌, String, Bool, true, false, Option, none, some, List, [], ◌∷◌, reverse, take, elem, length,
  ltb, ◌==◌, str_eq, if◌then◌else◌,
}
use event_driven_demo.Base.Int.{pos, leb_ℤ}
use event_driven_demo.Base.Text.{str}
use event_driven_demo.Base.Table.{Table}
use event_driven_demo.Pyevents.Json.{num, flag, string, Dict, empty, item}
use event_driven_demo.Pyevents.Effect.{
  Result, ok, err, ⊤, Action, pure, ◌>>=◌, ◌>>◌, lift, item_num,
}
use event_driven_demo.Pyevents.Db.{Conn, commit, rollback, execute, handle_once, once}
use event_driven_demo.Pyevents.Outbox.{stage_event}
use event_driven_demo.Pyevents.Consumer.{Message}
use event_driven_demo.Pyevents.Saga.{
  SagaState, started, charged, reserved, completed, compensating, cancelling, cancelled, Step,
  charge, reserve, dispatch, step_text, steps, step_command, step_ok, step_fail, step_compensate,
  comp_ok_values, Saga, LogKind, Orch, log, load, create, set_state, dec_comp_pending,
}

-- `text.lstrip(".")`
abbrev lstrip_dots : String → String
lstrip_dots String.[] = String.[]
lstrip_dots (String.◌∷◌ c s) = if code c == b'.' then lstrip_dots s else String.◌∷◌ c s

abbrev suffix_note : String → String
suffix_note suffix =
    if str_eq suffix "" then "" else text_append " (" (text_append (lstrip_dots suffix) ")")

-- `f"{routing_key}:{order_id}{suffix}"`
abbrev pub event_id_of : String → ℕ → String → String
event_id_of routing_key order_id suffix =
    text_append routing_key (text_append ":" (text_append (str order_id) suffix))

-- `body` never has the two keys that are put before it.
unfoldable pub emit : ℕ → ℕ → String → Dict → String → Action Orch ⊤
unfolding stage_event log
emit now order_id routing_key body suffix =
    let eid = event_id_of routing_key order_id suffix in
    stage_event eid routing_key (item "event_id" (string eid) (item "order_id" (num order_id) body))
    >> log now order_id LogKind.command (text_append routing_key (suffix_note suffix))

abbrev amount_body : ℕ → Dict
amount_body total_cents = item "amount_cents" (num total_cents) empty

-- The state in which the saga waits for the reply of a step.
abbrev pub waiting_state : Step → SagaState
waiting_state charge = started
waiting_state reserve = charged
waiting_state dispatch = reserved

unfoldable pub send_step : ℕ → ℕ → Step → ℕ → Action Orch ⊤
unfolding emit set_state
send_step now order_id step total_cents =
    emit now order_id (step_command step) (amount_body total_cents) ""
    >> set_state now order_id (waiting_state step) (some step) none

unfoldable pub finish_completed : ℕ → ℕ → Action Orch ⊤
unfolding emit set_state
finish_completed now order_id =
    set_state now order_id completed none none
    >> emit now order_id "order.shipped" (item "final" (flag true) empty) ""

unfoldable pub finish_cancelled : ℕ → ℕ → String → Action Orch ⊤
unfolding emit set_state
finish_cancelled now order_id reason =
    set_state now order_id cancelled none none
    >> emit now order_id "order.cancelled" (item "reason" (string reason) empty) ""

-- `STEPS.index(step)`
abbrev pub step_index : Step → ℕ
step_index charge = 0
step_index reserve = 1
step_index dispatch = 2

-- `[STEP_COMPENSATE[s] for s in … if s in STEP_COMPENSATE]`
abbrev pub compensations : List Step → List String
compensations [] = []
compensations (s ∷ ss) = elim (step_compensate s) [
  | none ↦ compensations ss
  | some rk ↦ rk ∷ compensations ss
]

-- The compensating commands for a step that failed or timed out.
unfoldable pub comps_for : Step → Bool → List String
comps_for failed_step include_failed_step =
    let up_to = step_index failed_step + (if include_failed_step then 1 else 0) in
    compensations (reverse (take up_to steps))

-- Python's text of a list of texts that hold no quote.
abbrev pub repr_rest : List String → String
repr_rest [] = "]"
repr_rest (s ∷ ss) = text_append ", '" (text_append s (text_append "'" (repr_rest ss)))

abbrev pub repr_texts : List String → String
repr_texts [] = "[]"
repr_texts (s ∷ ss) = text_append "['" (text_append s (text_append "'" (repr_rest ss)))

-- `for rk in comps: _emit(…)`
unfoldable pub emit_all : ℕ → ℕ → ℕ → List String → Action Orch ⊤
unfolding emit
emit_all now order_id total_cents [] = pure tt
emit_all now order_id total_cents (rk ∷ rks) =
    emit now order_id rk (amount_body total_cents) "" >> emit_all now order_id total_cents rks

unfoldable pub compensate : ℕ → ℕ → Step → ℕ → List String → Action Orch ⊤
unfolding set_state finish_cancelled emit_all log
compensate now order_id failed_step total_cents [] =
    set_state now order_id cancelling none (some (pos 0))
    >> finish_cancelled now order_id (text_append (step_text failed_step) " failed")
compensate now order_id failed_step total_cents (rk ∷ rks) =
    set_state now order_id compensating none (some (pos (length (rk ∷ rks))))
    >> log now order_id LogKind.state (text_append "compensating: " (repr_texts (rk ∷ rks)))
    >> emit_all now order_id total_cents (rk ∷ rks)

unfoldable pub begin_compensation : ℕ → ℕ → Step → ℕ → Bool → Action Orch ⊤
unfolding comps_for compensate
begin_compensation now order_id failed_step total_cents include_failed_step =
    compensate now order_id failed_step total_cents (comps_for failed_step include_failed_step)

unfoldable pub start_unless_loaded : ℕ → ℕ → ℕ → Option Saga → Action Orch ⊤
unfolding create log send_step
start_unless_loaded now order_id total (some _) = pure tt
start_unless_loaded now order_id total none =
    create order_id total
    >> log now order_id LogKind.state "saga started"
    >> send_step now order_id charge total

unfoldable pub handle_order_placed : ℕ → Message → Action Orch ⊤
unfolding load start_unless_loaded
handle_order_placed now msg = lift (item_num "order_id" msg.body) >>= λ order_id.
    lift (item_num "total_cents" msg.body) >>= λ total.
    load order_id >>= start_unless_loaded now order_id total

-- A reservation that arrives after the step was given up: release it again, under an id of its own.
unfoldable pub release_late : ℕ → ℕ → Saga → String → Action Orch ⊤
unfolding emit log
release_late now order_id s note =
    log now order_id LogKind.state note
    >> emit now order_id "cmd.inventory.release" (amount_body s.total_cents) ".late"

abbrev pub is_compensating : SagaState → Bool
is_compensating compensating = true
is_compensating _ = false

abbrev pub is_over : SagaState → Bool
is_over cancelled = true
is_over completed = true
is_over cancelling = true
is_over _ = false

unfoldable pub compensation_reply : ℕ → ℕ → String → Saga → Action Orch ⊤
unfolding dec_comp_pending finish_cancelled release_late
compensation_reply now order_id rk s =
    if elem rk comp_ok_values
    then dec_comp_pending order_id >>= (λ remaining.
      if leb_ℤ remaining (pos 0) then finish_cancelled now order_id "compensated" else pure tt)
    else if str_eq rk "reply.inventory.reserved"
    then release_late now order_id s "late reserve during compensation — re-releasing"
    else pure tt

-- `STEPS[idx + 1]`, if there is one.
abbrev pub next_step : Step → Option Step
next_step charge = some reserve
next_step reserve = some dispatch
next_step dispatch = none

unfoldable pub advance : ℕ → ℕ → ℕ → Option Step → Action Orch ⊤
unfolding send_step finish_completed
advance now order_id total_cents (some step) = send_step now order_id step total_cents
advance now order_id total_cents none = finish_completed now order_id

unfoldable pub forward_reply : ℕ → ℕ → String → Saga → Option Step → Action Orch ⊤
unfolding advance begin_compensation
forward_reply now order_id rk s none = pure tt
forward_reply now order_id rk s (some step) =
    if str_eq rk (step_ok step)
    then advance now order_id s.total_cents (next_step step)
    else if str_eq rk (step_fail step)
    then begin_compensation now order_id step s.total_cents false
    else pure tt

-- The rest of `_handle_reply`, on the saga that it has loaded.
unfoldable pub reply_to : ℕ → ℕ → String → Option Saga → Action Orch ⊤
unfolding log compensation_reply release_late forward_reply
reply_to now order_id rk none = pure tt
reply_to now order_id rk (some s) =
    log now order_id LogKind.reply rk
    >> (if is_compensating s.state
        then compensation_reply now order_id rk s
        else if is_over s.state
        then (if str_eq rk "reply.inventory.reserved"
            then release_late now order_id s "late reserve after cancel — re-releasing"
            else pure tt)
        else forward_reply now order_id rk s s.awaiting)

unfoldable pub handle_reply : ℕ → Message → Action Orch ⊤
unfolding load reply_to
handle_reply now msg = lift (item_num "order_id" msg.body) >>= λ order_id.
    load order_id >>= reply_to now order_id msg.routing_key

-- The body of `handler`, for a first delivery.
unfoldable pub react : ℕ → Message → Action Orch ⊤
unfolding handle_order_placed handle_reply
react now msg =
    if str_eq msg.routing_key "order.placed"
    then handle_order_placed now msg
    else if starts_with msg.routing_key "reply."
    then handle_reply now msg
    else pure tt

unfoldable pub handler : ℕ → Message → Conn Orch → Result ⊤ × Conn Orch
unfolding handle_once react
handler now msg = handle_once msg.event_id (once (react now msg))
