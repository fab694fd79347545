-- ===== src/Pyevents/Outbox.antt =====
-- libs/pyevents/pyevents/outbox.py: staging an event in the caller's transaction, and the relay that
-- publishes what is staged.
pub mod Rows
pub mod Relay
pub mod Drains
pub mod Effects
pub mod Runs
pub mod Resends
pub mod ExactlyOnce
mod Examples
use event_driven_demo.Base.{
  ℕ, ◌+◌, String, Bool, true, false, List, [], ◌∷◌, ◌++◌, ◌==◌, ◌||◌, map, take, length,
  if◌then◌else◌,
}
use event_driven_demo.Pyevents.Json.{Json, Dict}
use event_driven_demo.Pyevents.Effect.{Result, ok, err, amqp_error, ⊤, Action, pure, modify, ◌>>◌}
use event_driven_demo.Pyevents.Db.{OutboxRow, Store, Conn, commit, rollback}
use event_driven_demo.Pyevents.Publisher.{Sent, publish}

unfoldable pub stage_event : {S : Type 0} → String → String → Dict → Action (Store S) ⊤
stage_event event_id routing_key body d = (
  ok tt,
  record d {
    outbox =
        d.outbox
        ++ record {
          id = d.next_id;
          event_id = event_id;
          routing_key = routing_key;
          body = body;
          published = false;
        }
          ∷ [];
    next_id = d.next_id + 1;
  },
)

-- SELECT … WHERE published_at IS NULL ORDER BY id … FOR UPDATE SKIP LOCKED
abbrev pub unpublished : (ℕ → Bool) → List OutboxRow → List OutboxRow
unpublished locked [] = []
unpublished locked (r ∷ rs) =
    let rest = unpublished locked rs in if r.published || locked r.id then rest else r ∷ rest

-- UPDATE outbox SET published_at = now() WHERE id = …
abbrev pub mark_row : ℕ → OutboxRow → OutboxRow
mark_row row_id r = if r.id == row_id then record r { published = true } else r

abbrev pub set_published : {S : Type 0} → ℕ → Store S → Store S
set_published row_id d = record d { outbox = map (mark_row row_id) d.outbox }

-- The relay's database connection and its channel.
module _ {S C : Type 0} where
  abbrev pub on_channel : Action C ⊤ → Action (Store S × C) ⊤
  on_channel m (d, ch) = let (r, ch') = m ch in (r, (d, ch'))

  abbrev pub on_db : (Store S → Store S) → Action (Store S × C) ⊤
  on_db f = modify λ (d, ch). (f d, ch)

module _ {S C : Type 0} (dumps : Dict → String) (repr : Json → String)
    (basic_publish : Sent → Action C ⊤) (duplicate_mode : Bool) (exchange : String) where
  -- `for row_id, routing_key, body in rows`
  unfoldable pub publish_rows : List OutboxRow → Action (Store S × C) ⊤
  publish_rows [] = pure tt
  publish_rows (r ∷ rs) =
      on_channel (publish dumps repr basic_publish duplicate_mode exchange r.routing_key r.body)
      >> (on_db (set_published r.id) >> publish_rows rs)

  -- `db.commit()`, or `db.rollback()` and the exception again.
  abbrev pub drained :
      ℕ → Conn (Store S) → Result ⊤ × (Store S × C) → Result ℕ × (Conn (Store S) × C)
  drained n c (ok _, (d, ch)) = (ok n, (commit (record c { current = d }), ch))
  drained n c (err e, (d, ch)) = (err e, (rollback c, ch))

  abbrev pub send_batch : List OutboxRow → Conn (Store S) → C → Result ℕ × (Conn (Store S) × C)
  send_batch [] c ch = (ok 0, (rollback c, ch))
  send_batch (r ∷ rs) c ch = drained (length (r ∷ rs)) c (publish_rows (r ∷ rs) (c.current, ch))

  -- `_drain_once`
  unfoldable pub drain_once : (ℕ → Bool) → ℕ → Conn (Store S) → C → Result ℕ × (Conn (Store S) × C)
  drain_once locked batch c ch = send_batch (take batch (unpublished locked c.current.outbox)) c ch

  -- After a broker error the channel is opened anew; any other error ends the relay.
  abbrev pub recover :
      Action C ⊤ → Result ℕ × (Conn (Store S) × C) → Result ⊤ × (Conn (Store S) × C)
  recover open_channel (ok n, x) = (ok tt, x)
  recover open_channel (err amqp_error, (c, ch)) =
      let (r, ch') = open_channel ch in (r, (rollback c, ch'))
  recover open_channel (err e, x) = (err e, x)

  -- One turn of the loop in `relay_loop`, without the wait at its end.
  unfoldable pub relay_turn :
      Action C ⊤ → Bool → (ℕ → Bool) → ℕ → Conn (Store S) → C → Result ⊤ × (Conn (Store S) × C)
  relay_turn open_channel relay_paused locked batch c ch =
      if relay_paused then (ok tt, (c, ch)) else recover open_channel (drain_once locked batch c ch)
