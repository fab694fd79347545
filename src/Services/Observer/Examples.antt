-- ===== src/Services/Observer/Examples.antt =====
-- The theorems on services/observer/app, each at one concrete input.
use event_driven_demo.Base.{
  ℕ, ◌≡◌, refl, sym, inl, inr, String, true, false, Option, none, some, All, str_eq, List, [], ◌∷◌,
  ◌++◌, ◌==◌, ==_refl, ==_ne, if◌then◌else◌,
}
use event_driven_demo.Pyevents.Effect.{ok, ⊤, Action}
use event_driven_demo.Services.Observer.Feed.{maxlen, new_feed}
use event_driven_demo.Services.Observer.Feed.Ring.{Step, seen, flush, join, quit, last}
use event_driven_demo.Services.Observer.Feed.Clients.{Sockets}
use event_driven_demo.Pyevents.Json.{Json, num, obj, Dict, empty, item}
use event_driven_demo.Pyevents.Effect.{Result, err, type_error, runtime_error}
use event_driven_demo.Pyevents.Consumer.{Delivery, ack}
use event_driven_demo.Services.Observer.Consumer.{
  Happening, delivered, loop_turn, connected, disconnected, observe,
}
use event_driven_demo.Services.Observer.Consumer.Follows.{Settled, shown, observer_shows}

-- What has been sent to each socket.
abbrev Boxes : Type 0
Boxes = ℕ → List String

abbrev welcome : ℕ → Action Boxes ⊤
welcome k w = (ok tt, w)

abbrev put : ℕ → String → Action Boxes ⊤
put k event w = (ok tt, λ j. if k == j then w j ++ event ∷ [] else w j)

put-Sockets : Sockets welcome put (λ w j. w j)
put-Sockets = record {
  delivers = λ k e w h. rw (==_refl k) refl;
  apart = λ k j e w ne. rw (==_ne k j (λ same. ne (sym same))) refl;
  accepts = λ k j w. refl;
}

abbrev steps : List (Step String)
steps = seen "a" ∷ join 1 ∷ flush ∷ seen "b" ∷ quit 1 ∷ flush ∷ seen "c" ∷ []

abbrev loads : String → Result (Option Json)
loads raw = if str_eq raw "{" then ok none else ok (some (obj (item "order_id" (num 7) empty)))

abbrev int_of : String → Result ℕ
int_of s = err type_error

abbrev repr : Json → String
repr v = ""

abbrev arriving : String → Delivery
arriving raw = record {
  routing_key = "order.placed";
  redelivered = false;
  headers = empty;
  message_id = some "id";
  kind = none;
  raw = raw;
}

abbrev shut : ℕ → Dict → Action ⊤ ⊤
shut k e w = (err runtime_error, w)

abbrev day : List Happening
day =
    delivered "12:00" (arriving "{}")
    ∷ connected 1
    ∷ delivered "12:01" (arriving "{")
    ∷ loop_turn
    ∷ disconnected 1
    ∷ delivered "12:02" (arriving "{}")
    ∷ []

observer_shows_example :
    All
      (λ a. a ≡ ok (ack ∷ []))
      (observe (λ k w. (ok tt, w)) shut loads int_of repr day (new_feed true tt)).0
    × ((observe (λ k w. (ok tt, w)) shut loads int_of repr day (new_feed true tt)).1.recent
        ≡ last maxlen (shown loads int_of repr day))
observer_shows_example =
    observer_shows loads int_of repr (λ k w. (ok tt, w)) shut day true tt
      (sent, (tt, (inl refl, (tt, (tt, (sent, tt))))))
  where
    sent : Settled loads int_of repr (arriving "{}")
    sent = inr (_, 0, refl, refl)
