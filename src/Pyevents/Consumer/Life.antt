-- ===== src/Pyevents/Consumer/Life.antt =====
-- All deliveries of one message to a queue of libs/pyevents/pyevents/consumer.py, through its retry queue.
use Prim.Native.String.{◌++◌ as text_append}
use event_driven_demo.Base.{
  ℕ, zero, suc, ◌+◌, ◌≡◌, refl, String, true, false, Option, some, List, [], ◌∷◌, ◌++◌, arith,
  str_eq, eq_iff, if◌then◌else◌,
}
use event_driven_demo.Pyevents.Json.{Json, num, Dict, empty, item, get}
use event_driven_demo.Pyevents.Effect.{Error, Result, ok, err, ⊤}
use event_driven_demo.Pyevents.Consumer.{
  Message, Delivery, Call, publish, ack, dlx, retry_count_key, set_item, on_message,
}

pub get-set_item :
    (j k : String) (v : Json) (d : Dict)
    → get j (set_item k v d) ≡ (if str_eq k j then some v else get j d)
get-set_item j k v empty = refl
get-set_item j k v (item i w d) =
    ground (arith, eq_iff k j, eq_iff i k, eq_iff i j, get-set_item j k v d)

-- How the life of a message ends, if it does in the given number of deliveries.
pub data Fate : Type 0 where
  done crashed unfinished lost : Fate
  dead : Dict → Fate

-- What the topology makes of the calls: on the dead letter exchange, a message under the retry key comes
-- back to the queue, one under the dead key ends in the dead queue, and no other is kept.
pub data Next : Type 0 where
  stop : Fate → Next
  again : Dict → Next

abbrev pub routed : String → Result (List Call) → Next
routed queue (ok (publish exchange key raw message_id kind headers ∷ ack ∷ [])) =
    if str_eq exchange dlx
    then (if str_eq key (text_append queue ".retry")
        then again headers
        else if str_eq key (text_append queue ".dead")
        then stop (dead headers)
        else stop lost)
    else stop lost
routed queue (ok _) = stop done
routed queue (err e) = stop crashed

abbrev pub returned : String → Dict → Delivery → Delivery
returned queue headers d = record d { routing_key = queue; redelivered = false; headers = headers }

abbrev pub follow : {S : Type 0} → S → (Dict → Fate × S) → Next → Fate × S
follow s k (stop fate) = (fate, s)
follow s k (again headers) = k headers

-- A handler that always raises, and notes what it was given.
abbrev pub failing : Error → Message → List (String × ℕ) → Result ⊤ × List (String × ℕ)
failing e m seen = (err e, seen ++ (m.routing_key, m.attempt) ∷ [])

-- `n` attempts from number `k` on, each with the original routing key.
abbrev pub tries : String → ℕ → ℕ → List (String × ℕ)
tries rk k zero = []
tries rk k (suc n) = (rk, k) ∷ tries rk (k + 1) n

-- The message ends in the dead queue, with the count of its attempts.
abbrev pub DiesAfter : ℕ → List (String × ℕ) → Fate × List (String × ℕ) → Type 0
DiesAfter n seen (fate, seen') =
    (headers : Dict) × (fate ≡ dead headers)
    × (get retry_count_key headers ≡ some (num n))
    × (seen' ≡ seen)

module _ (loads : String → Result (Option Json)) (int_of : String → Result ℕ)
    (repr : Json → String) where
  -- At most `fuel` deliveries of one message.
  unfoldable pub life :
      {S : Type 0} → String → (Message → S → Result ⊤ × S) → ℕ → ℕ → Delivery → S → Fate × S
  life queue handler max_attempts zero d s = (unfinished, s)
  life queue handler max_attempts (suc fuel) d s =
      let (r, s') = on_message loads int_of repr queue handler max_attempts true d s in
      follow s' (λ headers. life queue handler max_attempts fuel (returned queue headers d) s')
        (routed queue r)
