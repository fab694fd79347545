-- ===== src/Pyevents/Outbox/Relay.antt =====
-- What the relay of libs/pyevents/pyevents/outbox.py delivers.
use mathlib.Core.List.{append-nil}
use event_driven_demo.Base.{
  ℕ, ◌≡◌, refl, sym, ◌⊎◌, inl, inr, String, Bool, List, [], ◌∷◌, ◌++◌, take, map, ◌∙◌, length,
  if◌then◌else◌,
}
use event_driven_demo.Pyevents.Json.{Json, Dict}
use event_driven_demo.Pyevents.Effect.{Error, Result, ok, err, ⊤, Action, ◌>>◌}
use event_driven_demo.Pyevents.Db.{OutboxRow, Store, Conn, idle}
use event_driven_demo.Pyevents.Db.Once.{IsClosed}
use event_driven_demo.Pyevents.Publisher.{Sent, sent_of, publish}
use event_driven_demo.Pyevents.Publisher.Delivers.{Delivers, Delivers-seq, copies, repeat-Delivers}
use event_driven_demo.Pyevents.Outbox.Rows.{
  drop, take-drop, Distinct, mark_rows, mark_rows-Distinct, unpublished-mark_rows, with_mark,
  mark_rows-with_mark,
}
use event_driven_demo.Pyevents.Outbox.{
  on_channel, on_db, drained, send_batch, unpublished, set_published, publish_rows, drain_once,
}

module _ (dumps : Dict → String) (repr : Json → String) (duplicate_mode : Bool)
    (exchange : String) where
  -- What the rows stand for, each message as often as the mode says.
  abbrev pub messages : List OutboxRow → List Sent
  messages [] = []
  messages (r ∷ rs) =
      copies (if duplicate_mode then 2 else 1) (sent_of dumps repr exchange r.routing_key r.body)
      ++ messages rs

-- How a turn ends: the batch is published in order, and in the database its rows are marked and nothing
-- else has changed, rows that another relay holds and other tables included; or nothing is marked, and a beginning of the batch has been published.
abbrev pub Drained :
    {S C : Type 0}
    → (ℕ → Bool)
    → (C → List Sent)
    → (List OutboxRow → List Sent)
    → List OutboxRow
    → List OutboxRow
    → Store S
    → C
    → Result ℕ × (Conn (Store S) × C)
    → Type 0
Drained locked log all rows rest d ch (r, (c, ch')) =
    IsClosed c
    × Distinct c.committed.outbox
    × (((r ≡ ok (length rows))
          × (unpublished locked c.committed.outbox ≡ rest)
          × (log ch' ≡ log ch ++ all rows)
          × (c.committed ≡ record d { outbox = map (with_mark rows) d.outbox }))
        ⊎ ((e : Error) × (done : List Sent) × (left : List Sent) × (r ≡ err e)
            × (c.committed ≡ d)
            × (all rows ≡ done ++ left)
            × (log ch' ≡ log ch ++ done)))

module _ {C : Type 0} (dumps : Dict → String) (repr : Json → String)
    (basic_publish : Sent → Action C ⊤) (duplicate_mode : Bool) (exchange : String)
    (log : C → List Sent)
    (logs : (m : Sent) (ch : C) → Delivers log (m ∷ []) ch (basic_publish m ch)) where
  publish_rows-Delivers :
      {S : Type 0} (rs : List OutboxRow) (x : Store S × C)
      → Delivers
          (λ y. log y.1)
          (messages dumps repr duplicate_mode exchange rs)
          x
          (publish_rows dumps repr basic_publish duplicate_mode exchange rs x)
  unfolding publish_rows publish
  publish_rows-Delivers [] x = inl (refl, sym (append-nil (log x.1)))
  publish_rows-Delivers (r ∷ rs) x =
      Delivers-seq (λ y. log y.1)
        (on_db (set_published r.id)
          >> publish_rows dumps repr basic_publish duplicate_mode exchange rs)
        _ (messages dumps repr duplicate_mode exchange rs) x
        (λ y. publish_rows-Delivers rs (set_published r.id y.0, y.1))
        (on_channel (publish dumps repr basic_publish duplicate_mode exchange r.routing_key r.body))
        (repeat-Delivers dumps repr basic_publish log logs _ _ x.1)

  publish_rows-marks :
      {S : Type 0} (rs : List OutboxRow) (x : Store S × C)
      → (publish_rows dumps repr basic_publish duplicate_mode exchange rs x).0 ≡ ok tt
      → (publish_rows dumps repr basic_publish duplicate_mode exchange rs x).1.0 ≡ mark_rows rs x.0
  unfolding publish_rows
  publish_rows-marks [] x h = refl
  publish_rows-marks {S = S} (r ∷ rs) (d, ch) h =
      by_first (publish dumps repr basic_publish duplicate_mode exchange r.routing_key r.body ch)
        (λ x. publish_rows-marks rs x) h
    where
      by_first :
          (y : Result ⊤ × C)
          → ((x : Store S × C)
              → (publish_rows dumps repr basic_publish duplicate_mode exchange rs x).0 ≡ ok tt
              → (publish_rows dumps repr basic_publish duplicate_mode exchange rs x).1.0
                ≡ mark_rows rs x.0)
          → ((on_channel (λ _. y)
                >> (on_db (set_published r.id)
                    >> publish_rows dumps repr basic_publish duplicate_mode exchange rs))
              (d, ch)).0
            ≡ ok tt
          → ((on_channel (λ _. y)
                >> (on_db (set_published r.id)
                    >> publish_rows dumps repr basic_publish duplicate_mode exchange rs))
              (d, ch)).1.0
            ≡ mark_rows (r ∷ rs) d
      by_first (ok _, ch') ih k = ih (set_published r.id d, ch') k
      by_first (err e, ch') ih k = cc

  module _ {S : Type 0} (locked : ℕ → Bool) where
    drained-Drained :
        (rows rest : List OutboxRow) (d : Store S) (ch : C) (y : Result ⊤ × (Store S × C))
        → Distinct d.outbox
        → unpublished locked d.outbox ≡ rows ++ rest
        → Delivers (λ x. log x.1) (messages dumps repr duplicate_mode exchange rows) (d, ch) y
        → (y.0 ≡ ok tt → y.1.0 ≡ mark_rows rows d)
        → Drained locked log
            (messages dumps repr duplicate_mode exchange)
            rows
            rest
            d
            ch
            (drained dumps repr basic_publish duplicate_mode exchange (length rows) (idle d) y)
    drained-Drained rows rest d ch (ok _, (d', ch')) h e (inl (p, l)) marks = (
      refl,
      rw (marks p) (mark_rows-Distinct rows d h),
      inl (
        refl,
        rw (marks p) (unpublished-mark_rows locked rows rest d h e),
        l,
        marks p ∙ mark_rows-with_mark rows d,
      ),
    )
    drained-Drained rows rest d ch (ok _, (d', ch')) h e (inr (f, done, left, p, s, l)) marks = cc
    drained-Drained rows rest d ch (err f, (d', ch')) h e (inl (p, l)) marks = cc
    drained-Drained rows rest d ch (err f, (d', ch')) h e (inr (g, done, left, p, s, l)) marks =
        (refl, h, inr (f, done, left, refl, refl, s, l))

    send_batch-Drained :
        (rows rest : List OutboxRow) (d : Store S) (ch : C)
        → Distinct d.outbox
        → unpublished locked d.outbox ≡ rows ++ rest
        → Drained locked log
            (messages dumps repr duplicate_mode exchange)
            rows
            rest
            d
            ch
            (send_batch dumps repr basic_publish duplicate_mode exchange rows (idle d) ch)
    send_batch-Drained [] rest d ch h e =
        (refl, h, inl (refl, e, sym (append-nil (log ch)), mark_rows-with_mark [] d))
    send_batch-Drained (r ∷ rs) rest d ch h e =
        drained-Drained (r ∷ rs) rest d ch _ h e (publish_rows-Delivers (r ∷ rs) (d, ch))
          (publish_rows-marks (r ∷ rs) (d, ch))

    -- A turn of the relay, on an outbox whose ids are distinct and a channel on which a publish that
    -- returns has sent its message once and one that raises has sent it once or not at all. Either the
    -- first `batch` unpublished rows that no other relay holds are published in the order of their ids,
    -- each as often as the duplicate mode says, and the database differs in their marks alone, also in
    -- the rows that other relays hold; or the turn raises, the
    -- database stays as it was, and a beginning of these messages has been published.
    pub drain_once-Drained :
        (batch : ℕ) (d : Store S) (ch : C)
        → Distinct d.outbox
        → Drained locked log
            (messages dumps repr duplicate_mode exchange)
            (take batch (unpublished locked d.outbox))
            (drop batch (unpublished locked d.outbox))
            d
            ch
            (drain_once dumps repr basic_publish duplicate_mode exchange locked batch (idle d) ch)
    unfolding drain_once
    drain_once-Drained batch d ch h =
        send_batch-Drained _ _ d ch h (take-drop batch (unpublished locked d.outbox))
