-- ===== src/Pyevents/Publisher/Examples.antt =====
-- The theorems on connections and on the class `Publisher`, each at one concrete broker.
use event_driven_demo.Base.{ℕ, zero, suc, ◌≡◌, refl, String, true, false, some, []}
use event_driven_demo.Pyevents.Json.{Json, empty}
use event_driven_demo.Pyevents.Effect.{ok, err, Error, amqp_error, ⊤, Action}
use event_driven_demo.Pyevents.Connection.{
  connect, connect_db, connects, Tried, is_amqp_connection_error, is_operational_error,
}
use event_driven_demo.Pyevents.Publisher.{Sent}
use event_driven_demo.Pyevents.Publisher.Healing.{State, publish_own}
use event_driven_demo.Pyevents.Publisher.Healing.Copies.{Copied, all_copies, publish_own-Copied}
use event_driven_demo.Pyevents.Publisher.Healing.Heals.{Revives, publish_own_returns}
use event_driven_demo.Pyevents.Publisher.Samples.{World, give, dropped, dropped-Logs}

-- A server that is up at its third attempt; the world counts the waits.
abbrev boots : Error → Action ℕ String
boots e zero = (err e, 0)
boots e (suc zero) = (err e, 1)
boots e (suc (suc n)) = (ok "connection", suc (suc n))

connects_example :
    Tried
      (boots amqp_error)
      (λ delay w. suc w)
      is_amqp_connection_error
      30
      2000
      0
      (connect (boots amqp_error) (λ delay w. suc w) 30 2000 0)
    × Tried
        (boots amqp_error)
        (λ delay w. suc w)
        is_operational_error
        30
        2000
        0
        (connect_db (boots amqp_error) (λ delay w. suc w) 30 2000 0)
connects_example = connects (boots amqp_error) (λ delay w. suc w) 30 2000 0

abbrev idle_publisher : State World ⊤ ⊤
idle_publisher = (
  record { exchange = "orders"; exchange_type = "topic"; conn = some tt; channel = some tt },
  (false, []),
)

only_amqp : (ch : ⊤) (m : Sent) (w : World) (e : Error) → (give ch m w).0 ≡ err e → e ≡ amqp_error
only_amqp ch m (true, out) e h = cc
only_amqp ch m (false, out) e h = cc

takes :
    (ch : ⊤) (m : Sent) (w : World)
    → w.0 ≡ true
    → ((give ch m w).0 ≡ ok tt) × ((give ch m w).1.0 ≡ true)
takes ch m (true, out) h = (refl, refl)
takes ch m (false, out) h = cc

dropped-Revives : Revives dropped (λ ch w. w.0 ≡ true)
dropped-Revives = record {
  opens = λ w. (tt, refl);
  channels = λ c w. (tt, refl, refl);
  declares = λ ch exchange kind w h. (refl, h);
  accepts = takes;
  only_lost = only_amqp;
}

abbrev container : Json → String
container v = "{}"

publish_own-Copied_example :
    Copied []
      (all_copies (λ d. "{}") container true "order.placed" empty "orders")
      (publish_own dropped (λ d. "{}") container true "order.placed" empty idle_publisher).0
      (publish_own dropped (λ d. "{}") container true "order.placed" empty idle_publisher).1.1.1
publish_own-Copied_example =
    publish_own-Copied dropped (λ x. x.1) dropped-Logs (λ d. "{}") container true "order.placed"
      empty idle_publisher

publish_own_returns_example :
    (publish_own dropped (λ d. "{}") container true "order.placed" empty idle_publisher).0 ≡ ok tt
publish_own_returns_example =
    publish_own_returns dropped (λ ch w. w.0 ≡ true) dropped-Revives (λ d. "{}") container true
      "order.placed" empty idle_publisher
