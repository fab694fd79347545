-- ===== src/Pyevents/Publisher.antt =====
-- libs/pyevents/pyevents/publisher.py: `publish`. The channel's `basic_publish`, the JSON printer and the text
-- of a container are given; the timestamp of a message is not kept.
pub mod Delivers
pub mod Healing
pub mod Samples
mod Examples
use event_driven_demo.Base.{ℕ, zero, suc, String, Bool, Option, none, some, if◌then◌else◌}
use event_driven_demo.Pyevents.Json.{Json, Dict, get, str_json}
use event_driven_demo.Pyevents.Effect.{⊤, Action, pure, ◌>>◌}

-- What a channel is given: a persistent JSON message.
pub record Sent : Type 0 where
  pub exchange : String
  pub routing_key : String
  pub payload : String
  pub message_id : String
  pub kind : String

module _ (dumps : Dict → String) (repr : Json → String) where
  -- `str(body.get("event_id", ""))`
  abbrev message_id_of : Option Json → String
  message_id_of none = ""
  message_id_of (some v) = str_json repr v

  abbrev pub sent_of : String → String → Dict → Sent
  sent_of exchange routing_key body = record {
    exchange = exchange;
    routing_key = routing_key;
    payload = dumps body;
    message_id = message_id_of (get "event_id" body);
    kind = routing_key;
  }

  module _ {C : Type 0} (basic_publish : Sent → Action C ⊤) where
    -- `for i in range(times)`
    unfoldable pub repeat : ℕ → Sent → Action C ⊤
    repeat zero m = pure tt
    repeat (suc n) m = basic_publish m >> repeat n m

    unfoldable pub publish : Bool → String → String → Dict → Action C ⊤
    unfolding repeat
    publish duplicate_mode exchange routing_key body =
        repeat (if duplicate_mode then 2 else 1) (sent_of exchange routing_key body)
