-- ===== src/Pyevents/Outbox/ExactlyOnce.antt =====
-- libs/pyevents/pyevents/outbox.py and db.py: at least once from the relay and at most once at the guard are
-- exactly once.
use mathlib.Core.List.{append-nil, append_assoc}
use event_driven_demo.Base.{
  ℕ, ◌≡◌, refl, sym, ap, ◌∙◌, inl, inr, String, Bool, true, false, List, [], ◌∷◌, ◌++◌, take,
}
use event_driven_demo.Pyevents.Json.{Json, Dict}
use event_driven_demo.Pyevents.Effect.{Result, ok, ⊤, Action}
use event_driven_demo.Pyevents.Db.{OutboxRow, Store, Conn, idle}
use event_driven_demo.Pyevents.Db.Once.{deliver_all}
use event_driven_demo.Pyevents.Publisher.{Sent, sent_of}
use event_driven_demo.Pyevents.Publisher.Delivers.{Delivers}
use event_driven_demo.Pyevents.Outbox.{drain_once, stage_event, set_published}
use event_driven_demo.Pyevents.Outbox.Rows.{drop, Distinct-mark}
use event_driven_demo.Pyevents.Outbox.Relay.{messages, Drained, drain_once-Drained}
use event_driven_demo.Pyevents.Outbox.Drains.{messages-append}
use event_driven_demo.Pyevents.Outbox.Effects.{Same, Same-append}
use event_driven_demo.Pyevents.Outbox.Resends.{
  recover_committed, recover_log, batch-Same, again-Same,
}
use event_driven_demo.Pyevents.Outbox.Runs.{
  Step, turn, stage, free, waiting, step, run, Serial, stage-Serial, unpublished-snoc, below-mark,
  drain_once_keeps,
}

mark-Serial : {S : Type 0} (k : ℕ) (d : Store S) → Serial d → Serial (set_published k d)
mark-Serial k d h = record {
  distinct = Distinct-mark k d.outbox h.distinct;
  below = below-mark k d.next_id d.outbox h.below;
}

-- The messages of the events that a run stages.
abbrev pub staged : (Dict → String) → (Json → String) → String → List Step → List Sent
staged dumps repr exchange [] = []
staged dumps repr exchange (turn p m ∷ ss) = staged dumps repr exchange ss
staged dumps repr exchange (stage event_id routing_key body ∷ ss) =
    sent_of dumps repr exchange routing_key body ∷ staged dumps repr exchange ss

module _ {T : Type 0} (key : Sent → String) (work : Sent → Action (Store T) ⊤)
    (keeps : (m : Sent) (e : Store T) → (work m e).1.processed ≡ e.processed)
    (total : (m : Sent) (e : Store T) → (work m e).0 ≡ ok tt) (dumps : Dict → String)
    (repr : Json → String) (exchange : String) where
  -- What a part of a run has done: what has been sent, with all that still waits, has the effect of what
  -- waited before and what was staged.
  abbrev pub Effect :
      {S C : Type 0} → (C → List Sent) → Store S × C → List Sent → Store S × C → Type 0
  Effect log x new y =
      (out : List Sent) × (log y.1 ≡ log x.1 ++ out)
      × Same key work (out ++ messages dumps repr false exchange (waiting y.0))
          (messages dumps repr false exchange (waiting x.0) ++ new)

  Effect-trans :
      {S C : Type 0} (log : C → List Sent) (x y z : Store S × C) (new more : List Sent)
      → Effect log x new y
      → Effect log y more z
      → Effect log x (new ++ more) z
  Effect-trans log (d, ch) (d1, ch1) (d2, ch2) new more (out, lg, same) (out', lg', same') =
      let all = λ (rows : List OutboxRow). messages dumps repr false exchange rows in
      (
        out ++ out',
        lg' ∙ ap (λ l. l ++ out') lg ∙ append_assoc (log ch) out out',
        λ e.
            ap (λ l. deliver_all key work l e) (append_assoc out out' (all (waiting d2)))
            ∙ Same-append key work out out (out' ++ all (waiting d2)) (all (waiting d1) ++ more)
                (λ _. refl) same' e
            ∙ ap (λ l. deliver_all key work l e) (sym (append_assoc out (all (waiting d1)) more))
            ∙ Same-append key work (out ++ all (waiting d1)) (all (waiting d) ++ new) more more same
                (λ _. refl) e
            ∙ ap (λ l. deliver_all key work l e) (append_assoc (all (waiting d)) new more),
      )

  module _ {C : Type 0} (basic_publish : Sent → Action C ⊤) (log : C → List Sent)
      (logs : (x : Sent) (ch : C) → Delivers log (x ∷ []) ch (basic_publish x ch))
      (open_channel : Action C ⊤) (quiet : (ch : C) → log (open_channel ch).1 ≡ log ch)
      (batch : ℕ) where
    drain-Effect :
        {S : Type 0} (m : Bool) (d : Store S) (ch : C) (y : Result ℕ × (Conn (Store S) × C))
        → Drained free log
            (messages dumps repr m exchange)
            (take batch (waiting d))
            (drop batch (waiting d))
            d
            ch
            y
        → Effect log (d, ch) [] (y.1.0.committed, y.1.1)
    drain-Effect m d ch (r, (c, ch')) (closed, distinct, inl (p, un, lg, marks)) = (
      messages dumps repr m exchange (take batch (waiting d)),
      lg,
      rw (un, append-nil (messages dumps repr false exchange (waiting d)))
          (batch-Same key work keeps total dumps repr exchange m batch (waiting d)),
    )
    drain-Effect m d ch (r, (c, ch')) (closed, distinct, inr (e, done, left, p, same, split, lg)) =
        (
          done,
          lg,
          rw (same, append-nil (messages dumps repr false exchange (waiting d)))
              (again-Same key work keeps total dumps repr exchange m batch (waiting d) done left
                split),
        )

    turn-Effect :
        {S : Type 0} (paused m : Bool) (d : Store S) (ch : C)
        → Serial d
        → Effect log
            (d, ch)
            []
            (step dumps repr basic_publish exchange open_channel batch (turn paused m) (d, ch))
    unfolding step
    turn-Effect true m d ch h = (
      [],
      sym (append-nil (log ch)),
      rw (append-nil (messages dumps repr false exchange (waiting d))) (λ e. refl),
    )
    turn-Effect false m d ch h =
        let y = drain_once dumps repr basic_publish m exchange free batch (idle d) ch in
        let (out, lg, same) = drain-Effect m d ch y (
          drain_once-Drained dumps repr basic_publish m exchange log logs free batch d ch
            h.distinct) in
        (
          out,
          recover_log dumps repr basic_publish m exchange open_channel log quiet y ∙ lg,
          rw (recover_committed dumps repr basic_publish m exchange open_channel y) same,
        )

    step-Serial :
        {S : Type 0} (s : Step) (d : Store S) (ch : C)
        → Serial d
        → Serial (step dumps repr basic_publish exchange open_channel batch s (d, ch)).0
    unfolding step
    step-Serial (turn true m) d ch h = h
    step-Serial (turn false m) d ch h =
        rw
          (recover_committed dumps repr basic_publish m exchange open_channel
            (drain_once dumps repr basic_publish m exchange free batch (idle d) ch))
          (drain_once_keeps dumps repr basic_publish m exchange Serial mark-Serial free batch d ch
            h)
    step-Serial (stage event_id routing_key body) d ch h =
        stage-Serial event_id routing_key body d h

    stage-Effect :
        {S : Type 0} (event_id routing_key : String) (body : Dict) (d : Store S) (ch : C)
        → Effect log
            (d, ch)
            (sent_of dumps repr exchange routing_key body ∷ [])
            ((stage_event event_id routing_key body d).1, ch)
    unfolding stage_event
    stage-Effect event_id routing_key body d ch = (
      [],
      sym (append-nil (log ch)),
      λ e.
          ap (λ l. deliver_all key work l e)
            (ap (messages dumps repr false exchange) (unpublished-snoc d.outbox _ refl)
              ∙ messages-append dumps repr false exchange (waiting d) _),
    )

    step-Effect :
        {S : Type 0} (s : Step) (d : Store S) (ch : C)
        → Serial d
        → Effect log
            (d, ch)
            (staged dumps repr exchange (s ∷ []))
            (step dumps repr basic_publish exchange open_channel batch s (d, ch))
    unfolding step
    step-Effect (turn paused m) d ch h = turn-Effect paused m d ch h
    step-Effect (stage event_id routing_key body) d ch h =
        stage-Effect event_id routing_key body d ch

    staged-cons :
        (s : Step) (ss : List Step)
        → staged dumps repr exchange (s ∷ ss)
          ≡ staged dumps repr exchange (s ∷ []) ++ staged dumps repr exchange ss
    staged-cons (turn p m) ss = refl
    staged-cons (stage event_id routing_key body) ss = refl

    -- Whatever turns the relay makes on an outbox whose ids are in order, paused or not, in duplicate mode
    -- or not, whether the broker accepts, raises in the middle of a batch or loses the channel, and
    -- whatever events are staged in between: the messages that have gone out, followed by those that still
    -- wait, commit at a consumer exactly what one delivery of each event that waited before or has been
    -- staged commits, in the order of their staging. No other relay holds a row, a call of the channel
    -- that raises has sent its message or not, opening a channel sends nothing, and the handler neither
    -- raises nor touches the marks.
    pub exactly_once :
        {S : Type 0} (ss : List Step) (d : Store S) (ch : C)
        → Serial d
        → Effect log
            (d, ch)
            (staged dumps repr exchange ss)
            (run dumps repr basic_publish exchange open_channel batch ss (d, ch))
    unfolding run
    exactly_once [] d ch h = (
      [],
      sym (append-nil (log ch)),
      rw (append-nil (messages dumps repr false exchange (waiting d))) (λ e. refl),
    )
    exactly_once (s ∷ ss) d ch h =
        let x = step dumps repr basic_publish exchange open_channel batch s (d, ch) in
        rw (staged-cons s ss) (
          Effect-trans log (d, ch) x (run dumps repr basic_publish exchange open_channel batch ss x)
            (staged dumps repr exchange (s ∷ [])) (staged dumps repr exchange ss)
            (step-Effect s d ch h) (exactly_once ss x.0 x.1 (step-Serial s d ch h)))
