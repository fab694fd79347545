-- ===== src/Pyevents/Db.antt =====
-- libs/pyevents/pyevents/db.py: transactions on one connection and the idempotency guard; and the
-- tables `processed_events` and `outbox` that every service's schema.sql declares.
pub mod Once
use event_driven_demo.Base.{ℕ, suc, ◌≡◌, String, Bool, true, false, List, ◌∷◌, elem, if◌then◌else◌}
use event_driven_demo.Pyevents.Json.{Dict}
use event_driven_demo.Pyevents.Effect.{Result, ok, err, ⊤, Action, pure}

-- A row of `outbox`; `published` says that `published_at` is not NULL.
pub record OutboxRow : Type 0 where
  pub id : ℕ
  pub event_id : String
  pub routing_key : String
  pub body : Dict
  pub published : Bool

-- A service's database: its own tables, and the two that all services have. `outbox` is in the
-- order of `id`, and `next_id` is its BIGSERIAL.
pub record Store (S : Type 0) : Type 0 where
  pub tables : S
  pub processed : List String
  pub outbox : List OutboxRow
  pub next_id : ℕ

-- A psycopg connection with autocommit off: the committed database, and what the open
-- transaction sees.
pub record Conn (D : Type 0) : Type 0 where
  pub committed : D
  pub current : D

module _ {D : Type 0} where
  abbrev pub commit : Conn D → Conn D
  commit c = record c { committed = c.current }

  abbrev pub rollback : Conn D → Conn D
  rollback c = record c { current = c.committed }

  -- A connection with no transaction open.
  abbrev pub idle : D → Conn D
  idle d = record { committed = d; current = d }

  abbrev pub execute : {A : Type 0} → Action D A → Conn D → Result A × Conn D
  execute m c = let (r, d) = m c.current in (r, record c { current = d })

module _ {S : Type 0} where
  -- INSERT INTO processed_events … ON CONFLICT (event_id) DO NOTHING; `rowcount == 1`.
  unfoldable pub mark_processed : String → Action (Store S) Bool
  mark_processed event_id d =
      if elem event_id d.processed
      then (ok false, d)
      else (ok true, record d { processed = event_id ∷ d.processed })

  -- How the context manager ends: commit a first run, roll back a duplicate or an exception.
  unfoldable pub finish :
      {A : Type 0} → Bool → Result A → Conn (Store S) → Result A × Conn (Store S)
  finish is_first (ok a) c = (ok a, if is_first then commit c else rollback c)
  finish is_first (err e) c = (err e, rollback c)

  run_guarded :
      {A : Type 0}
      → Result Bool
      → (Bool → Action (Store S) A)
      → Conn (Store S)
      → Result A × Conn (Store S)
  unfolding finish
  run_guarded (err e) body c = (err e, rollback c)
  run_guarded (ok is_first) body c = let (r, c') = execute (body is_first) c in finish is_first r c'

  -- `with process_once(conn, event_id) as first_time: body`.
  unfoldable pub process_once :
      {A : Type 0}
      → String
      → (Bool → Action (Store S) A)
      → Conn (Store S)
      → Result A × Conn (Store S)
  unfolding mark_processed run_guarded
  process_once event_id body c =
      let (r, c') = execute (mark_processed event_id) c in run_guarded r body c'

-- What `handle_once` yields; the cursor is the state of the action.
pub record HandleUnit : Type 0 where
  pub first_time : Bool

module _ {S : Type 0} where
  -- `with handle_once(conn, event_id) as u: body`.
  unfoldable pub handle_once :
      {A : Type 0}
      → String
      → (HandleUnit → Action (Store S) A)
      → Conn (Store S)
      → Result A × Conn (Store S)
  unfolding mark_processed run_guarded
  handle_once event_id body c =
      let (r, c') = execute (mark_processed event_id) c in
      run_guarded r (λ is_first. body (record { first_time = is_first })) c'

  -- `if not u.first_time: return`, and then the work: the shape of every handler.
  abbrev pub once : Action (Store S) ⊤ → HandleUnit → Action (Store S) ⊤
  once work u = if u.first_time then work else pure tt
