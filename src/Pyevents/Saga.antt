-- ===== src/Pyevents/Saga.antt =====
-- libs/pyevents/pyevents/saga.py: the orchestrator's tables, the steps of a saga with their routing
-- keys, and the statements on `sagas` and `saga_log`. Times are whole seconds.
use Prim.Native.String.{◌++◌ as text_append}
use event_driven_demo.Base.{ℕ, String, Option, none, some, List, [], ◌∷◌, ◌++◌}
use event_driven_demo.Base.Int.{ℤ, pos, ◌-ℤ◌}
use event_driven_demo.Base.Table.{Table, find, insert_new, update}
use event_driven_demo.Pyevents.Effect.{⊤, ok, Action, ◌>>◌}
use event_driven_demo.Pyevents.Db.{Store}

-- The texts of the `state` column.
pub data SagaState : Type 0 where
  started charged reserved completed compensating cancelling cancelled : SagaState

pub data Step : Type 0 where
  charge reserve dispatch : Step

abbrev pub state_text : SagaState → String
state_text started = "STARTED"
state_text charged = "CHARGED"
state_text reserved = "RESERVED"
state_text completed = "COMPLETED"
state_text compensating = "COMPENSATING"
state_text cancelling = "CANCELLING"
state_text cancelled = "CANCELLED"

abbrev pub step_text : Step → String
step_text charge = "charge"
step_text reserve = "reserve"
step_text dispatch = "dispatch"

abbrev pub steps : List Step
steps = charge ∷ reserve ∷ dispatch ∷ []

abbrev pub step_command : Step → String
step_command charge = "cmd.payment.charge"
step_command reserve = "cmd.inventory.reserve"
step_command dispatch = "cmd.shipping.dispatch"

abbrev pub step_ok : Step → String
step_ok charge = "reply.payment.charged"
step_ok reserve = "reply.inventory.reserved"
step_ok dispatch = "reply.shipping.dispatched"

abbrev pub step_fail : Step → String
step_fail charge = "reply.payment.failed"
step_fail reserve = "reply.inventory.failed"
step_fail dispatch = "reply.shipping.failed"

-- `STEP_COMPENSATE.get(step)`: a dispatch has no compensation.
abbrev pub step_compensate : Step → Option String
step_compensate charge = some "cmd.payment.refund"
step_compensate reserve = some "cmd.inventory.release"
step_compensate dispatch = none

-- `COMP_OK.values()`
abbrev pub comp_ok_values : List String
comp_ok_values = "reply.payment.refunded" ∷ "reply.inventory.released" ∷ []

pub record Saga : Type 0 where
  pub order_id : ℕ
  pub state : SagaState
  pub total_cents : ℕ
  pub awaiting : Option Step
  pub comp_pending : ℤ
  pub step_started : Option ℕ

pub data LogKind : Type 0 where
  state command reply timeout : LogKind

pub record LogRow : Type 0 where
  pub order_id : ℕ
  pub at : ℕ
  pub kind : LogKind
  pub detail : String

-- orchestrator_db; `saga_log` is in the order of its serial id.
pub record SagaDb : Type 0 where
  pub sagas : Table Saga
  pub saga_log : List LogRow

abbrev pub Orch : Type 0
Orch = Store SagaDb

abbrev on_tables : (SagaDb → SagaDb) → Orch → Orch
on_tables f d = record d { tables = f d.tables }

unfoldable pub log : ℕ → ℕ → LogKind → String → Action Orch ⊤
log now order_id kind detail d = (
  ok tt,
  on_tables
      (λ t. record t {
        saga_log =
            t.saga_log
            ++ record { order_id = order_id; at = now; kind = kind; detail = detail } ∷ [];
      })
      d,
)

unfoldable pub load : ℕ → Action Orch (Option Saga)
load order_id d = (ok (find order_id d.tables.sagas), d)

unfoldable pub create : ℕ → ℕ → Action Orch ⊤
create order_id total_cents d = (
  ok tt,
  on_tables
      (λ t. record t {
        sagas =
            insert_new order_id
              (record {
                order_id = order_id;
                state = started;
                total_cents = total_cents;
                awaiting = none;
                comp_pending = pos 0;
                step_started = none;
              })
              t.sagas;
      })
      d,
)

-- `CASE WHEN awaiting IS NULL THEN NULL ELSE now() END`
abbrev started_at : ℕ → Option Step → Option ℕ
started_at now none = none
started_at now (some _) = some now

-- `COALESCE(new, old)`
abbrev coalesce : Option ℤ → ℤ → ℤ
coalesce none old = old
coalesce (some new) old = new

abbrev awaiting_text : Option Step → String
awaiting_text none = ""
awaiting_text (some step) = text_append " (awaiting " (text_append (step_text step) ")")

abbrev pub state_row : ℕ → SagaState → Option Step → Option ℤ → Saga → Saga
state_row now new_state awaiting comp_pending s = record s {
  state = new_state;
  awaiting = awaiting;
  step_started = started_at now awaiting;
  comp_pending = coalesce comp_pending s.comp_pending;
}

unfoldable pub set_state : ℕ → ℕ → SagaState → Option Step → Option ℤ → Action Orch ⊤
unfolding log
set_state now order_id new_state awaiting comp_pending =
    (λ d. (
      ok tt,
      on_tables
          (λ t. record t {
            sagas = update order_id (state_row now new_state awaiting comp_pending) t.sagas;
          })
          d,
    ))
    >> log now order_id state
        (text_append "-> " (text_append (state_text new_state) (awaiting_text awaiting)))

abbrev pub returned : Option Saga → ℤ
returned none = pos 0
returned (some s) = s.comp_pending

unfoldable pub dec_comp_pending : ℕ → Action Orch ℤ
dec_comp_pending order_id d =
    let sagas =
      update order_id (λ s. record s { comp_pending = s.comp_pending -ℤ pos 1 }) d.tables.sagas in
    (ok (returned (find order_id sagas)), on_tables (λ t. record t { sagas = sagas }) d)
