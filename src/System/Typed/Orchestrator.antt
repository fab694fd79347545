-- ===== src/System/Typed/Orchestrator.antt =====
-- The orchestrator stages typed messages only.
use text.Mathlib.TextLemmas.{append-nil}
use text.Mathlib.Text.{starts_with}
use Prim.Native.String.{◌++◌ as text_append}
use event_driven_demo.Base.{
  ℕ, ◌≡◌, refl, ap, String, Bool, true, false, Option, none, some, List, [], ◌∷◌, str_eq, length,
  elem, if◌then◌else◌, All,
}
use event_driven_demo.Base.Text.{str}
use event_driven_demo.Base.Text.Decode.{has_no_colon, read, told}
use event_driven_demo.Base.Int.{ℤ, pos, leb_ℤ}
use event_driven_demo.Pyevents.Json.{Dict, num, flag, string, item, empty}
use event_driven_demo.Pyevents.Effect.{
  Result, ok, Action, pure, ◌>>=◌, ◌>>◌, lift, get_num, item_num,
}
use event_driven_demo.Pyevents.Consumer.{Message}
use event_driven_demo.Pyevents.Saga.{
  Step, charge, reserve, dispatch, step_ok, step_fail, comp_ok_values, Saga, LogKind, Orch, log,
  load, create, set_state, dec_comp_pending, completed, cancelled, cancelling, compensating,
}
use event_driven_demo.Services.Orchestrator.{
  repr_texts, emit, send_step, finish_completed, finish_cancelled, comps_for, emit_all, compensate,
  begin_compensation, start_unless_loaded, handle_order_placed, release_late, compensation_reply,
  advance, next_step, forward_reply, reply_to, handle_reply, react, is_compensating, is_over,
}
use event_driven_demo.System.Typed.{Types, Types-bind, Types-if, stage-Types, body-Typed}

-- A message other than a reservation, under any suffix.
emit-Types :
    (now o n : ℕ) (rk : String) (body : Dict) (suffix : String)
    → get_num "amount_cents" 0 body ≡ ok n
    → str_eq rk "order.placed" ≡ false
    → str_eq rk "cmd.inventory.reserve" ≡ false
    → has_no_colon rk ≡ true
    → read o suffix ≡ o
    → Types (emit now o rk body suffix)
unfolding emit
emit-Types now o n rk body suffix priced other free plain stops d t =
    stage-Types _ rk _
      (λ id.
        body-Typed id o n _ rk body priced other (told rk o suffix plain stops) (λ e. cc (e, free)))
      d t

emit_reserve-Types :
    (now o n : ℕ) (body : Dict)
    → get_num "amount_cents" 0 body ≡ ok n
    → Types (emit now o "cmd.inventory.reserve" body "")
unfolding emit
emit_reserve-Types now o n body priced d t =
    stage-Types _ "cmd.inventory.reserve" _
      (λ id.
        body-Typed id o n _ "cmd.inventory.reserve" body priced refl
          (told "cmd.inventory.reserve" o "" refl refl)
          (λ _.
            ap (λ s. text_append "cmd.inventory.reserve" (text_append ":" s)) (append-nil (str o))))
      d t

send_step-Types : (now o : ℕ) (step : Step) (total : ℕ) → Types (send_step now o step total)
unfolding send_step
send_step-Types now o charge total d t =
    emit-Types now o total "cmd.payment.charge" _ "" refl refl refl refl refl d t
send_step-Types now o reserve total d t = emit_reserve-Types now o total _ refl d t
send_step-Types now o dispatch total d t =
    emit-Types now o total "cmd.shipping.dispatch" _ "" refl refl refl refl refl d t

finish_completed-Types : (now o : ℕ) → Types (finish_completed now o)
unfolding finish_completed set_state log
finish_completed-Types now o d t =
    emit-Types now o 0 "order.shipped" (item "final" (flag true) empty) "" refl refl refl refl refl
      (set_state now o completed none none d).1 t

finish_cancelled-Types : (now o : ℕ) (reason : String) → Types (finish_cancelled now o reason)
unfolding finish_cancelled set_state log
finish_cancelled-Types now o reason d t =
    emit-Types now o 0 "order.cancelled" (item "reason" (string reason) empty) "" refl refl refl
      refl refl (set_state now o cancelled none none d).1 t

-- Neither an order.placed nor a reservation.
abbrev Undoes : String → Type 0
Undoes rk =
    (str_eq rk "order.placed" ≡ false)
    × (str_eq rk "cmd.inventory.reserve" ≡ false)
    × (has_no_colon rk ≡ true)

emit_all-Types :
    (now o total : ℕ) (rks : List String) → All Undoes rks → Types (emit_all now o total rks)
unfolding emit_all
emit_all-Types now o total [] h = λ d t. t
emit_all-Types now o total (rk ∷ rks) ((other, free, plain), h) =
    Types-bind (emit now o rk (item "amount_cents" (num total) empty) "")
      (λ _. emit_all now o total rks) (emit-Types now o total rk _ "" refl other free plain refl)
      (λ _. emit_all-Types now o total rks h)

compensate-Types :
    (now o : ℕ) (step : Step) (total : ℕ) (rks : List String)
    → All Undoes rks
    → Types (compensate now o step total rks)
unfolding compensate set_state log
compensate-Types now o step total [] h d t =
    finish_cancelled-Types now o _ (set_state now o cancelling none (some (pos 0)) d).1 t
compensate-Types now o step total (rk ∷ rks) h d t =
    emit_all-Types now o total (rk ∷ rks) h
      ((set_state now o compensating none (some (pos (length (rk ∷ rks))))
          >> log now o LogKind.state (text_append "compensating: " (repr_texts (rk ∷ rks))))
        d).1
      t

comps_for-Undoes : (step : Step) (included : Bool) → All Undoes (comps_for step included)
unfolding comps_for
comps_for-Undoes charge true = ((refl, refl, refl), tt)
comps_for-Undoes charge false = tt
comps_for-Undoes reserve true = ((refl, refl, refl), ((refl, refl, refl), tt))
comps_for-Undoes reserve false = ((refl, refl, refl), tt)
comps_for-Undoes dispatch true = ((refl, refl, refl), ((refl, refl, refl), tt))
comps_for-Undoes dispatch false = ((refl, refl, refl), ((refl, refl, refl), tt))

pub begin_compensation-Types :
    (now o : ℕ) (step : Step) (total : ℕ) (included : Bool)
    → Types (begin_compensation now o step total included)
unfolding begin_compensation
begin_compensation-Types now o step total included =
    compensate-Types now o step total (comps_for step included) (comps_for-Undoes step included)

release_late-Types : (now o : ℕ) (s : Saga) (note : String) → Types (release_late now o s note)
unfolding release_late log
release_late-Types now o s note d t =
    emit-Types now o s.total_cents "cmd.inventory.release" _ ".late" refl refl refl refl refl
      (log now o LogKind.state note d).1 t

start-Types : (now o total : ℕ) (s : Option Saga) → Types (start_unless_loaded now o total s)
unfolding start_unless_loaded create log
start-Types now o total (some s) d t = t
start-Types now o total none d t =
    send_step-Types now o charge total
      ((create o total >> log now o LogKind.state "saga started") d).1 t

-- A reservation is released again, any other reply is passed over.
late-Types :
    (now o : ℕ) (rk : String) (s : Saga) (note : String)
    → Types (
        if str_eq rk "reply.inventory.reserved"
        then release_late now o s note
        else pure {D = Orch} tt)
late-Types now o rk s note =
    Types-if (str_eq rk "reply.inventory.reserved") (release_late now o s note) (pure tt)
      (release_late-Types now o s note) (λ d t. t)

last_undone-Types :
    (now o : ℕ) (remaining : ℤ)
    → Types (
        if leb_ℤ remaining (pos 0)
        then finish_cancelled now o "compensated"
        else pure {D = Orch} tt)
last_undone-Types now o remaining =
    Types-if (leb_ℤ remaining (pos 0)) (finish_cancelled now o "compensated") (pure tt)
      (finish_cancelled-Types now o "compensated") (λ d t. t)

compensation_reply-Types :
    (now o : ℕ) (rk : String) (s : Saga) → Types (compensation_reply now o rk s)
unfolding compensation_reply
compensation_reply-Types now o rk s =
    Types-if (elem rk comp_ok_values)
      (dec_comp_pending o >>= (λ remaining.
        if leb_ℤ remaining (pos 0) then finish_cancelled now o "compensated" else pure tt))
      (if str_eq rk "reply.inventory.reserved"
        then release_late now o s "late reserve during compensation — re-releasing"
        else pure tt)
      (Types-bind (dec_comp_pending o)
        (λ remaining.
          if leb_ℤ remaining (pos 0) then finish_cancelled now o "compensated" else pure tt)
        (unfold dec_comp_pending in λ d t. t) (last_undone-Types now o))
      (late-Types now o rk s "late reserve during compensation — re-releasing")

advance-Types : (now o total : ℕ) (next : Option Step) → Types (advance now o total next)
unfolding advance
advance-Types now o total (some step) = send_step-Types now o step total
advance-Types now o total none = finish_completed-Types now o

forward_reply-Types :
    (now o : ℕ) (rk : String) (s : Saga) (awaiting : Option Step)
    → Types (forward_reply now o rk s awaiting)
unfolding forward_reply
forward_reply-Types now o rk s none = λ d t. t
forward_reply-Types now o rk s (some step) =
    let failed = begin_compensation now o step s.total_cents false in
    Types-if (str_eq rk (step_ok step)) (advance now o s.total_cents (next_step step))
      (if str_eq rk (step_fail step) then failed else pure tt)
      (advance-Types now o s.total_cents (next_step step))
      (Types-if (str_eq rk (step_fail step)) failed (pure tt)
        (begin_compensation-Types now o step s.total_cents false) (λ d t. t))

reply_to-Types : (now o : ℕ) (rk : String) (s : Option Saga) → Types (reply_to now o rk s)
unfolding reply_to
reply_to-Types now o rk none = λ d t. t
reply_to-Types now o rk (some s) =
    let note : String = "late reserve after cancel — re-releasing" in
    let over =
      if str_eq rk "reply.inventory.reserved"
      then release_late now o s note
      else pure {D = Orch} tt in
    let forward = forward_reply now o rk s s.awaiting in
    let rest = if is_over s.state then over else forward in
    let undo = compensation_reply now o rk s in
    Types-bind (log now o LogKind.reply rk) (λ _. if is_compensating s.state then undo else rest)
      (unfold log in λ d t. t)
      (λ _. Types-if (is_compensating s.state) undo rest (compensation_reply-Types now o rk s) (
        Types-if (is_over s.state) over forward (late-Types now o rk s note)
          (forward_reply-Types now o rk s s.awaiting)))

lift-Types :
    {A B : Type 0} (r : Result A) (k : A → Action Orch B)
    → ((a : A) → Types (k a))
    → Types (lift r >>= k)
lift-Types r k h = Types-bind (lift r) k (λ d t. t) h

handle_order_placed-Types : (now : ℕ) (msg : Message) → Types (handle_order_placed now msg)
unfolding handle_order_placed
handle_order_placed-Types now msg =
    lift-Types (item_num "order_id" msg.body)
      (λ o. lift (item_num "total_cents" msg.body) >>= λ total.
        load o >>= start_unless_loaded now o total)
      (λ o.
        lift-Types (item_num "total_cents" msg.body)
          (λ total. load o >>= start_unless_loaded now o total)
          (λ total.
            Types-bind (load o) (start_unless_loaded now o total) (unfold load in λ d t. t)
              (start-Types now o total)))

handle_reply-Types : (now : ℕ) (msg : Message) → Types (handle_reply now msg)
unfolding handle_reply
handle_reply-Types now msg =
    lift-Types (item_num "order_id" msg.body) (λ o. load o >>= reply_to now o msg.routing_key)
      (λ o.
        Types-bind (load o) (reply_to now o msg.routing_key) (unfold load in λ d t. t)
          (reply_to-Types now o msg.routing_key))

pub react-Types : (now : ℕ) (msg : Message) → Types (react now msg)
unfolding react
react-Types now msg =
    Types-if (str_eq msg.routing_key "order.placed") (handle_order_placed now msg)
      (if starts_with msg.routing_key "reply." then handle_reply now msg else pure tt)
      (handle_order_placed-Types now msg)
      (Types-if (starts_with msg.routing_key "reply.") (handle_reply now msg) (pure tt)
        (handle_reply-Types now msg) (λ d t. t))
