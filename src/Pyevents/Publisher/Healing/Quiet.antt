-- ===== src/Pyevents/Publisher/Healing/Quiet.antt =====
-- Opening a connection anew, as the class `Publisher` of libs/pyevents/pyevents/publisher.py does, sends nothing.
use event_driven_demo.Base.{ℕ, ◌≡◌, refl, ap, ◌∙◌, String, Bool, true, false, some, List, [], ◌∷◌}
use event_driven_demo.Pyevents.Effect.{Result, ok, err, Action, ◌>>=◌}
use event_driven_demo.Pyevents.Connection.{
  connect, attempts_keeps, is_amqp_connection_error, default_retries, default_delay,
}
use event_driven_demo.Pyevents.Publisher.{Sent}
use event_driven_demo.Pyevents.Publisher.Delivers.{Delivers}
use event_driven_demo.Pyevents.Publisher.Healing.{
  Pika, State, in_world, take_channel, take_connection, reopen, open_unless,
}

-- What has gone out on a broker: a call that publishes sends its message, unless it raises, and then
-- it may have; no other call sends any.
pub record Logs {W C H : Type 0} (pika : Pika W C H) (log : W → List Sent) : Type 0 where
  pub opens : (w : W) → log (pika.open_once w).1 ≡ log w
  pub sleeps : (delay : ℕ) (w : W) → log (pika.sleep delay w) ≡ log w
  pub channels : (c : C) (w : W) → log (pika.new_channel c w).1 ≡ log w
  pub declares :
      (ch : H) (exchange kind : String) (w : W)
      → log (pika.exchange_declare ch exchange kind w).1 ≡ log w
  pub publishes : (ch : H) (m : Sent) (w : W) → Delivers log (m ∷ []) w (pika.basic_publish ch m w)

abbrev pub sent : {W C H : Type 0} → (W → List Sent) → State W C H → List Sent
sent log (p, w) = log w

-- The exchange of the publisher and what has gone out.
abbrev pub seen : {W C H : Type 0} → (W → List Sent) → State W C H → String × List Sent
seen log (p, w) = (p.exchange, log w)

module _ {W C H : Type 0} (pika : Pika W C H) (log : W → List Sent) (logs : Logs pika log) where
  -- What sends nothing, and leaves the exchange as it is.
  abbrev pub Quiet : {A : Type 0} → Action (State W C H) A → Type 0
  Quiet m = (s : State W C H) → seen log (m s).1 ≡ seen log s

  in_world-Quiet :
      {A : Type 0} (m : Action W A) → ((w : W) → log (m w).1 ≡ log w) → Quiet (in_world m)
  in_world-Quiet m h (p, w) = ap (λ l. (p.exchange, l)) (h w)

  Quiet-after :
      {A B : Type 0} (k : A → Action (State W C H) B)
      → ((a : A) → Quiet (k a))
      → (s : State W C H) (y : Result A × State W C H) → seen log y.1 ≡ seen log s
      → seen log (((λ _. y) >>= k) s).1 ≡ seen log s
  Quiet-after k hk s (ok a, s') h = hk a s' ∙ h
  Quiet-after k hk s (err e, s') h = h

  Quiet-bind :
      {A B : Type 0} (m : Action (State W C H) A) (k : A → Action (State W C H) B)
      → Quiet m
      → ((a : A) → Quiet (k a))
      → Quiet (m >>= k)
  Quiet-bind m k hm hk s = Quiet-after k hk s (m s) (hm s)

  take_connection-Quiet : (conn : C) → Quiet (take_connection pika conn)
  take_connection-Quiet conn (p, w) =
      Quiet-bind (in_world (pika.new_channel conn)) (take_channel pika)
        (in_world-Quiet (pika.new_channel conn) (logs.channels conn))
        (λ ch (q, v).
          in_world-Quiet (pika.exchange_declare ch q.exchange q.exchange_type)
            (logs.declares ch q.exchange q.exchange_type) (q, v))
        (record p { conn = some conn }, w)

  pub reopen-Quiet : Quiet (reopen pika)
  unfolding reopen connect
  reopen-Quiet =
      Quiet-bind (in_world (connect pika.open_once pika.sleep default_retries default_delay))
        (take_connection pika)
        (in_world-Quiet (connect pika.open_once pika.sleep default_retries default_delay) (
          attempts_keeps pika.open_once pika.sleep log logs.opens logs.sleeps
            is_amqp_connection_error default_retries default_delay))
        take_connection-Quiet

  pub open_unless-Quiet : (good : Bool) → Quiet (open_unless pika good)
  open_unless-Quiet true s = refl
  open_unless-Quiet false s = reopen-Quiet s
