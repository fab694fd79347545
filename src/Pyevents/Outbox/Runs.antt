-- ===== src/Pyevents/Outbox/Runs.antt =====
-- Any run of the relay of libs/pyevents/pyevents/outbox.py, with events that are staged meanwhile.
use event_driven_demo.Base.{
  ℕ, ◌+◌, ◌<◌, ◌≡◌, ◌≢◌, refl, String, Bool, false, List, [], ◌∷◌, ◌++◌, arith, take, map, All,
  All-append,
}
use event_driven_demo.Pyevents.Json.{Json, Dict}
use event_driven_demo.Pyevents.Effect.{Result, ok, err, ⊤, Action, ◌>>◌}
use event_driven_demo.Pyevents.Db.{OutboxRow, Store, idle}
use event_driven_demo.Pyevents.Publisher.{Sent, publish}
use event_driven_demo.Pyevents.Outbox.{
  set_published, publish_rows, on_channel, on_db, drained, send_batch, mark_row, unpublished,
  drain_once, relay_turn, stage_event,
}
use event_driven_demo.Pyevents.Outbox.Rows.{mark_row-id, Distinct}

-- A turn of the relay, with the switches as they are then, or an event that a handler stages and commits.
pub data Step : Type 0 where
  turn : (relay_paused duplicate_mode : Bool) → Step
  stage : (event_id routing_key : String) → Dict → Step

-- No other relay holds a row.
abbrev pub free : ℕ → Bool
free id = false

abbrev pub waiting : {S : Type 0} → Store S → List OutboxRow
waiting d = unpublished free d.outbox

module _ {S C : Type 0} (dumps : Dict → String) (repr : Json → String)
    (basic_publish : Sent → Action C ⊤) (exchange : String) (open_channel : Action C ⊤)
    (batch : ℕ) where
  unfoldable pub step : Step → Store S × C → Store S × C
  unfolding relay_turn
  step (turn relay_paused duplicate_mode) (d, ch) =
      let (r, (c, ch')) =
        relay_turn dumps repr basic_publish duplicate_mode exchange open_channel relay_paused free
          batch (idle d) ch in
      (c.committed, ch')
  step (stage event_id routing_key body) (d, ch) = ((stage_event event_id routing_key body d).1, ch)

  unfoldable pub run : List Step → Store S × C → Store S × C
  unfolding step
  run [] x = x
  run (s ∷ ss) x = run ss (step s x)

-- The ids of the outbox are distinct, and below the next one.
pub record Serial {S : Type 0} (d : Store S) : Type 0 where
  pub distinct : Distinct d.outbox
  pub below : All (λ r. r.id < d.next_id) d.outbox

Distinct-snoc :
    (n : ℕ) (rs : List OutboxRow) (r : OutboxRow)
    → Distinct rs
    → All (λ q. q.id < n) rs
    → r.id ≡ n
    → Distinct (rs ++ r ∷ [])
Distinct-snoc n [] r h b e = (tt, tt)
Distinct-snoc n (q ∷ rs) r (ne, h) (lt, b) e = (
  All-append (λ p. p.id ≢ q.id) rs (r ∷ []) ne ((λ same. absurd (omega (arith, lt, e, same))), tt),
  Distinct-snoc n rs r h b e,
)

All-later_id : (n : ℕ) (rs : List OutboxRow) → All (λ r. r.id < n) rs → All (λ r. r.id < n + 1) rs
All-later_id n [] h = tt
All-later_id n (r ∷ rs) (lt, h) = (omega (arith, lt), All-later_id n rs h)

pub below-mark :
    (k n : ℕ) (rs : List OutboxRow)
    → All (λ r. r.id < n) rs
    → All (λ r. r.id < n) (map (mark_row k) rs)
below-mark k n [] h = tt
below-mark k n (r ∷ rs) (lt, h) = (rw (mark_row-id k r) lt, below-mark k n rs h)

pub unpublished-snoc :
    (rs : List OutboxRow) (r : OutboxRow)
    → r.published ≡ false
    → unpublished free (rs ++ r ∷ []) ≡ unpublished free rs ++ r ∷ []
unpublished-snoc [] r h = rw h refl
unpublished-snoc (q ∷ rs) r h = ground (arith, unpublished-snoc rs r h)

pub stage-Serial :
    {S : Type 0} (event_id routing_key : String) (body : Dict) (d : Store S)
    → Serial d
    → Serial (stage_event event_id routing_key body d).1
unfolding stage_event
stage-Serial event_id routing_key body d h = record {
  distinct = Distinct-snoc d.next_id d.outbox _ h.distinct h.below refl;
  below =
      All-append (λ r. r.id < d.next_id + 1) d.outbox _ (All-later_id d.next_id d.outbox h.below)
        (omega arith, tt);
}

-- What marking a row keeps, a turn keeps.
module _ {S C : Type 0} (dumps : Dict → String) (repr : Json → String)
    (basic_publish : Sent → Action C ⊤) (m : Bool) (exchange : String) (I : Store S → Type 0)
    (marks : (k : ℕ) (d : Store S) → I d → I (set_published k d)) where
  publish_rows_keeps :
      (rs : List OutboxRow) (x : Store S × C)
      → I x.0
      → I (publish_rows dumps repr basic_publish m exchange rs x).1.0
  unfolding publish_rows
  publish_rows_keeps [] x h = h
  publish_rows_keeps (r ∷ rs) (d, ch) h =
      by_first (publish dumps repr basic_publish m exchange r.routing_key r.body ch)
        (λ ch'. publish_rows_keeps rs (set_published r.id d, ch') (marks r.id d h))
    where
      by_first :
          (y : Result ⊤ × C)
          → ((ch' : C)
              → I
                  (publish_rows dumps repr basic_publish m exchange rs
                    (set_published r.id d, ch')).1.0)
          → I
              ((on_channel (λ _. y)
                  >> (on_db (set_published r.id)
                      >> publish_rows dumps repr basic_publish m exchange rs))
                (d, ch)).1.0
      by_first (ok _, ch') ih = ih ch'
      by_first (err e, ch') ih = h

  drained_keeps :
      (n : ℕ) (d : Store S) (y : Result ⊤ × (Store S × C))
      → I d
      → I y.1.0
      → I (drained dumps repr basic_publish m exchange n (idle d) y).1.0.committed
  drained_keeps n d (ok _, x) h k = k
  drained_keeps n d (err e, x) h k = h

  pub drain_once_keeps :
      (locked : ℕ → Bool) (batch : ℕ) (d : Store S) (ch : C)
      → I d
      → I (drain_once dumps repr basic_publish m exchange locked batch (idle d) ch).1.0.committed
  unfolding drain_once
  drain_once_keeps locked batch d ch h = by_rows (take batch (unpublished locked d.outbox))
    where
      by_rows :
          (rs : List OutboxRow)
          → I (send_batch dumps repr basic_publish m exchange rs (idle d) ch).1.0.committed
      by_rows [] = h
      by_rows (r ∷ rs) = drained_keeps _ d _ h (publish_rows_keeps (r ∷ rs) (d, ch) h)
