-- ===== src/Pyevents/Consumer/Unretried.antt =====
-- `_on_message` of libs/pyevents/pyevents/consumer.py with retries off.
use event_driven_demo.Base.{ℕ, ◌≡◌, refl, String, false, Option, none, some, [], ◌∷◌}
use event_driven_demo.Pyevents.Json.{Json, obj, Dict}
use event_driven_demo.Pyevents.Effect.{Result, ok, err, ⊤}
use event_driven_demo.Pyevents.Consumer.{
  Message, Delivery, ack, retry_count_key, int_header, message_of, after_handler, handle, parsed,
  on_message,
}

module _ (loads : String → Result (Option Json)) (int_of : String → Result ℕ) (repr : Json → String)
    {S : Type 0} (queue : String) (handler : Message → S → Result ⊤ × S) (max_attempts : ℕ) where
  -- A body that is no JSON is dropped.
  pub on_message-drops :
      (d : Delivery) (s : S)
      → loads d.raw ≡ ok none
      → on_message loads int_of repr queue handler max_attempts false d s ≡ (ok (ack ∷ []), s)
  unfolding on_message parsed
  on_message-drops d s e = rw e refl

  acknowledged :
      (d : Delivery) (n : ℕ) (r : Result ⊤)
      → after_handler loads int_of repr queue handler max_attempts false d n r ≡ ack ∷ []
  unfolding after_handler
  acknowledged d n (ok _) = refl
  acknowledged d n (err _) = refl

  -- An object is acknowledged whether its handler returns or raises.
  pub on_message-acknowledges :
      (d : Delivery) (s : S) (body : Dict) (n : ℕ)
      → loads d.raw ≡ ok (some (obj body))
      → int_header loads int_of repr d.headers retry_count_key ≡ ok n
      → on_message loads int_of repr queue handler max_attempts false d s
        ≡ (ok (ack ∷ []), (handler (message_of loads int_of repr d body n) s).1)
  unfolding on_message parsed handle
  on_message-acknowledges d s body n e count =
      rw (e, count, acknowledged d n (handler (message_of loads int_of repr d body n) s).0) refl
