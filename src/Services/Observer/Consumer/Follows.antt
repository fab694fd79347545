-- ===== src/Services/Observer/Consumer/Follows.antt =====
-- The observer's consumer, services/observer/app/consumer.py, never holds a message up and shows each one.
use event_driven_demo.Base.{
  ℕ, ◌≡◌, refl, sym, ap, ◌∙◌, ◌⊎◌, inl, inr, String, Bool, Option, none, some, List, [], ◌∷◌, ◌++◌,
  All,
}
use event_driven_demo.Pyevents.Json.{Json, obj, Dict}
use event_driven_demo.Pyevents.Effect.{Result, ok, ⊤, Action}
use event_driven_demo.Pyevents.Consumer.{
  Delivery, ack, retry_count_key, int_header, message_of, default_max_attempts,
}
use event_driven_demo.Pyevents.Consumer.Unretried.{on_message-drops, on_message-acknowledges}
use event_driven_demo.Services.Observer.Feed.{Feed, maxlen, new_feed, fan_out, enter, leave}
use event_driven_demo.Services.Observer.Feed.Ring.{
  Step, seen, flush, join, quit, messages, step, run, last, ring_holds_last,
}
use event_driven_demo.Services.Observer.Consumer.{
  Happening, delivered, loop_turn, connected, disconnected, event_of, handler, on_delivery, observe,
}

module _ (loads : String → Result (Option Json)) (int_of : String → Result ℕ)
    (repr : Json → String) where
  -- A body that is no JSON, or an object with a retry count that is a number.
  abbrev pub Settled : Delivery → Type 0
  Settled d =
      (loads d.raw ≡ ok none)
      ⊎ ((body : Dict) × (n : ℕ) × (loads d.raw ≡ ok (some (obj body)))
          × (int_header loads int_of repr d.headers retry_count_key ≡ ok n))

  abbrev pub Deliverable : Happening → Type 0
  Deliverable (delivered now d) = Settled d
  Deliverable _ = Unit

  -- What is shown of a body: nothing unless it is an object.
  abbrev pub shown_of : String → Delivery → Result (Option Json) → List Dict
  shown_of now d (ok (some (obj body))) = event_of now (message_of loads int_of repr d body 0) ∷ []
  shown_of now d _ = []

  -- What is to be shown, in the order of the deliveries.
  abbrev pub shown : List Happening → List Dict
  shown [] = []
  shown (delivered now d ∷ hs) = shown_of now d (loads d.raw) ++ shown hs
  shown (_ ∷ hs) = shown hs

  -- The steps of the feed.
  abbrev seen_all : List Dict → List (Step Dict)
  seen_all [] = []
  seen_all (e ∷ es) = seen e ∷ seen_all es

  abbrev steps_of : List Happening → List (Step Dict)
  steps_of [] = []
  steps_of (delivered now d ∷ hs) = seen_all (shown_of now d (loads d.raw)) ++ steps_of hs
  steps_of (loop_turn ∷ hs) = flush ∷ steps_of hs
  steps_of (connected sock ∷ hs) = join sock ∷ steps_of hs
  steps_of (disconnected sock ∷ hs) = quit sock ∷ steps_of hs

  messages-seen_all :
      (es : List Dict) (steps : List (Step Dict))
      → messages (seen_all es ++ steps) ≡ es ++ messages steps
  messages-seen_all [] steps = refl
  messages-seen_all (e ∷ es) steps = ap (λ l. e ∷ l) (messages-seen_all es steps)

  messages-steps_of : (hs : List Happening) → messages (steps_of hs) ≡ shown hs
  messages-steps_of [] = refl
  messages-steps_of (delivered now d ∷ hs) =
      messages-seen_all (shown_of now d (loads d.raw)) (steps_of hs)
      ∙ ap (λ l. shown_of now d (loads d.raw) ++ l) (messages-steps_of hs)
  messages-steps_of (loop_turn ∷ hs) = messages-steps_of hs
  messages-steps_of (connected sock ∷ hs) = messages-steps_of hs
  messages-steps_of (disconnected sock ∷ hs) = messages-steps_of hs

  module _ {W : Type 0} (accept : ℕ → Action W ⊤) (send_json : ℕ → Dict → Action W ⊤) where
    -- A delivery that is settled is acknowledged at once, and the feed is as after its message.
    on_delivery-seen :
        (now : String) (d : Delivery) (s : Feed Dict W)
        → Settled d
        → on_delivery accept send_json loads int_of repr now d s
          ≡ (ok (ack ∷ []), run accept send_json (seen_all (shown_of now d (loads d.raw))) s)
    unfolding on_delivery
    on_delivery-seen now d s (inl e) =
        on_message-drops loads int_of repr "observer.q" (handler accept send_json now)
          default_max_attempts d s e
        ∙ rw e refl
    on_delivery-seen now d s (inr (body, n, e, count)) =
        on_message-acknowledges loads int_of repr "observer.q" (handler accept send_json now)
          default_max_attempts d s body n e count
        ∙ rw e (unfold handler message_of event_of step in refl)

    run-append :
        (xs ys : List (Step Dict)) (s : Feed Dict W)
        → run accept send_json (xs ++ ys) s ≡ run accept send_json ys (run accept send_json xs s)
    run-append [] ys s = refl
    run-append (x ∷ xs) ys s = run-append xs ys (step accept send_json x s)

    observe-run :
        (hs : List Happening) (s : Feed Dict W)
        → All Deliverable hs
        → All (λ a. a ≡ ok (ack ∷ [])) (observe accept send_json loads int_of repr hs s).0
          × ((observe accept send_json loads int_of repr hs s).1
              ≡ run accept send_json (steps_of hs) s)
    unfolding observe step
    observe-run [] s h = (tt, refl)
    observe-run (delivered now d ∷ hs) s (settled, h) =
        let e = on_delivery-seen now d s settled in
        let (answers, same) =
          observe-run hs (on_delivery accept send_json loads int_of repr now d s).1 h in
        (
          (ap (λ r. r.0) e, answers),
          same
              ∙ ap (λ r. run accept send_json (steps_of hs) r.1) e
              ∙ sym (run-append (seen_all (shown_of now d (loads d.raw))) (steps_of hs) s),
        )
    observe-run (loop_turn ∷ hs) s (_, h) = observe-run hs (fan_out accept send_json s) h
    observe-run (connected sock ∷ hs) s (_, h) = observe-run hs (enter accept send_json sock s) h
    observe-run (disconnected sock ∷ hs) s (_, h) = observe-run hs (leave accept send_json sock s) h

    -- Whatever deliveries the observer gets, their bodies no JSON or objects with a readable retry count,
    -- and whatever sockets come, go or fail between them: every delivery is acknowledged at once, none
    -- is published again, and the ring buffer holds exactly the last 100 of the events that describe
    -- those with an object for a body, in their order.
    pub observer_shows :
        (hs : List Happening) (has_loop : Bool) (w : W)
        → All Deliverable hs
        → All
            (λ a. a ≡ ok (ack ∷ []))
            (observe accept send_json loads int_of repr hs (new_feed has_loop w)).0
          × ((observe accept send_json loads int_of repr hs (new_feed has_loop w)).1.recent
              ≡ last maxlen (shown hs))
    observer_shows hs has_loop w settled =
        let (answers, same) = observe-run hs (new_feed has_loop w) settled in
        (
          answers,
          ap (λ s. s.recent) same
              ∙ (ring_holds_last accept send_json (steps_of hs) has_loop w).0
              ∙ ap (last maxlen) (messages-steps_of hs),
        )
