-- ===== src/Services/Orchestrator/Timeouts.antt =====
-- `_timeout_watchdog` of services/orchestrator/app/__main__.py.
use Prim.Native.String.{◌++◌ as text_append}
use event_driven_demo.Base.{
  ℕ, ◌+◌, String, Bool, true, Option, none, some, List, [], ◌∷◌, ltb, if◌then◌else◌,
}
use event_driven_demo.Base.Text.{str}
use event_driven_demo.Base.Table.{Table}
use event_driven_demo.Pyevents.Effect.{Result, ok, err, ⊤, Action, pure, ◌>>◌}
use event_driven_demo.Pyevents.Db.{Conn, commit, rollback, execute}
use event_driven_demo.Pyevents.Saga.{Step, step_text, Saga, LogKind, Orch, log}
use event_driven_demo.Services.Orchestrator.{begin_compensation}

-- The WHERE clause of the watchdog: the row waits, and its step began too long ago.
unfoldable pub timed_out : ℕ → ℕ → Saga → Option Step
timed_out now timeout_s s = elim s.step_started [
  | none ↦ none
  | some began ↦ if ltb (began + timeout_s) now then s.awaiting else none
]

-- SELECT … FOR UPDATE SKIP LOCKED: the rows (order, step, total) that no one else has locked.
unfoldable pub stuck_rows : ℕ → ℕ → (ℕ → Bool) → Table Saga → List (ℕ × Step × ℕ)
stuck_rows now timeout_s locked [] = []
stuck_rows now timeout_s locked ((order_id, s) ∷ t) =
    let rest = stuck_rows now timeout_s locked t in
    if locked order_id then rest else elim (timed_out now timeout_s s) [
      | none ↦ rest
      | some step ↦ (order_id, step, s.total_cents) ∷ rest
    ]

-- `f"{step} timed out after {STEP_TIMEOUT_S}s"`
abbrev pub timeout_note : Step → ℕ → String
timeout_note step timeout_s =
    text_append (step_text step) (text_append " timed out after " (text_append (str timeout_s) "s"))

-- One row of the watchdog's loop.
unfoldable pub expire : ℕ → ℕ → ℕ × Step × ℕ → Action Orch ⊤
unfolding log begin_compensation
expire now timeout_s (order_id, step, total) =
    log now order_id LogKind.timeout (timeout_note step timeout_s)
    >> begin_compensation now order_id step total true

unfoldable pub expire_all : ℕ → ℕ → List (ℕ × Step × ℕ) → Action Orch ⊤
unfolding expire
expire_all now timeout_s [] = pure tt
expire_all now timeout_s (row ∷ rows) = expire now timeout_s row >> expire_all now timeout_s rows

-- `db.commit()`, or `db.rollback()` and a log line where something was raised.
unfoldable pub settle : Result ⊤ × Conn Orch → Conn Orch
settle (ok _, c) = commit c
settle (err _, c) = rollback c

-- One round of `_timeout_watchdog`.
unfoldable pub watchdog : ℕ → ℕ → (ℕ → Bool) → Conn Orch → Conn Orch
unfolding timed_out stuck_rows expire_all settle
watchdog now timeout_s locked c =
    settle
      (execute (λ d. expire_all now timeout_s (stuck_rows now timeout_s locked d.tables.sagas) d) c)
