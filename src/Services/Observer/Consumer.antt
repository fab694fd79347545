-- ===== src/Services/Observer/Consumer.antt =====
-- services/observer/app/consumer.py: the handler, and the deliveries that it gets among all else that
-- happens to the feed. The clock, the JSON parser and what a socket does are given.
pub mod Follows
use event_driven_demo.Base.{ℕ, String, Option, none, some, false, List, [], ◌∷◌}
use event_driven_demo.Pyevents.Json.{Json, null, flag, string, obj, Dict, empty, item, get}
use event_driven_demo.Pyevents.Effect.{Result, ok, ⊤, Action}
use event_driven_demo.Pyevents.Consumer.{Message, Delivery, Call, default_max_attempts, on_message}
use event_driven_demo.Services.Observer.Feed.{Feed, broadcast, fan_out, enter, leave}

-- `body.get(key)`, as a value.
abbrev pub or_null : Option Json → Json
or_null none = null
or_null (some v) = v

-- What the dashboard is shown of a message.
unfoldable pub event_of : (seen_at : String) → Message → Dict
event_of seen_at msg = item "seen_at" (string seen_at) (
    item "routing_key" (string msg.routing_key) (
      item "event_id" (string msg.event_id) (
        item "redelivered" (flag msg.redelivered) (
          item "order_id" (or_null (get "order_id" msg.body)) (item "body" (obj msg.body) empty)))))

-- What happens to the observer: a delivery at a time, a turn of the loop, a socket that comes or goes.
pub data Happening : Type 0 where
  delivered : (now : String) → Delivery → Happening
  loop_turn : Happening
  connected disconnected : (sock : ℕ) → Happening

module _ {W : Type 0} (accept : ℕ → Action W ⊤) (send_json : ℕ → Dict → Action W ⊤) where
  -- `handler`
  unfoldable pub handler : (now : String) → Message → Feed Dict W → Result ⊤ × Feed Dict W
  unfolding event_of broadcast
  handler now msg s = (ok tt, broadcast accept send_json (event_of now msg) s)

  module _ (loads : String → Result (Option Json)) (int_of : String → Result ℕ)
      (repr : Json → String) where
    -- The callback that `consume(ch, queue=QUEUE, handler=handler, retry=False)` registers.
    unfoldable pub on_delivery :
        (now : String) → Delivery → Feed Dict W → Result (List Call) × Feed Dict W
    unfolding handler on_message
    on_delivery now =
        on_message loads int_of repr "observer.q" (handler now) default_max_attempts false

    -- What the callback has answered, delivery by delivery, and the feed in the end.
    unfoldable pub observe : List Happening → Feed Dict W → List (Result (List Call)) × Feed Dict W
    unfolding on_delivery fan_out enter leave
    observe [] s = ([], s)
    observe (delivered now d ∷ hs) s =
        let (answer, s') = on_delivery now d s in
        let (answers, s'') = observe hs s' in (answer ∷ answers, s'')
    observe (loop_turn ∷ hs) s = observe hs (fan_out accept send_json s)
    observe (connected sock ∷ hs) s = observe hs (enter accept send_json sock s)
    observe (disconnected sock ∷ hs) s = observe hs (leave accept send_json sock s)
