-- ===== src/Pyevents/Publisher/Healing.antt =====
-- libs/pyevents/pyevents/publisher.py: the class `Publisher`, which opens its connection anew when the
-- broker has dropped it. What pika does is an argument; the lock only keeps the calls apart.
pub mod Quiet
pub mod Copies
pub mod Heals
use event_driven_demo.Base.{ℕ, String, Bool, true, false, Option, none, some, ◌&&◌, if◌then◌else◌}
use event_driven_demo.Pyevents.Json.{Json, Dict}
use event_driven_demo.Pyevents.Effect.{
  Result, ok, err, assertion_error, ⊤, Action, pure, raise, modify, ◌>>=◌, ◌>>◌,
}
use event_driven_demo.Pyevents.Connection.{
  is_amqp_connection_error, connect, default_retries, default_delay,
}
use event_driven_demo.Pyevents.Publisher.{Sent, publish}

-- What the class calls of pika, and the wait between two attempts to connect: `W` is the world, `C` a
-- connection and `H` a channel.
pub record Pika (W C H : Type 0) : Type 0 where
  pub open_once : Action W C
  pub sleep : ℕ → W → W
  pub new_channel : C → Action W H
  pub exchange_declare : H → (exchange exchange_type : String) → Action W ⊤
  pub conn_is_open : C → W → Bool
  pub channel_is_open : H → W → Bool
  pub basic_publish : H → Sent → Action W ⊤

pub record Publisher (C H : Type 0) : Type 0 where
  pub exchange : String
  pub exchange_type : String
  pub conn : Option C
  pub channel : Option H

abbrev pub State : Type 0 → Type 0 → Type 0 → Type 0
State W C H = Publisher C H × W

module _ {W C H : Type 0} where
  abbrev pub in_world : {A : Type 0} → Action W A → Action (State W C H) A
  in_world m (p, w) = let (r, w') = m w in (r, (p, w'))

  abbrev pub set_self : (Publisher C H → Publisher C H) → Action (State W C H) ⊤
  set_self f = modify λ (p, w). (f p, w)

abbrev pub is_open : {A W : Type 0} → (A → W → Bool) → Option A → W → Bool
is_open test none w = false
is_open test (some a) w = test a w

module _ {W C H : Type 0} (pika : Pika W C H) where
  -- `self._channel.exchange_declare(…)`
  abbrev pub declare_own : H → Action (State W C H) ⊤
  declare_own ch (p, w) = in_world (pika.exchange_declare ch p.exchange p.exchange_type) (p, w)

  -- The statements of `_open`, from the assignment of each of its values on.
  abbrev pub take_channel : H → Action (State W C H) ⊤
  take_channel ch = set_self (λ p. record p { channel = some ch }) >> declare_own ch

  abbrev pub take_connection : C → Action (State W C H) ⊤
  take_connection conn =
      set_self (λ p. record p { conn = some conn })
      >> (in_world (pika.new_channel conn) >>= take_channel)

  -- `_open`
  unfoldable pub reopen : Action (State W C H) ⊤
  unfolding connect
  reopen =
      in_world (connect pika.open_once pika.sleep default_retries default_delay) >>= take_connection

  -- `__init__`
  unfoldable pub new_publisher : String → String → W → Result ⊤ × State W C H
  unfolding reopen
  new_publisher exchange exchange_type w = reopen (
    record { exchange = exchange; exchange_type = exchange_type; conn = none; channel = none },
    w,
  )

  -- `_healthy`
  unfoldable pub healthy : State W C H → Bool
  healthy (p, w) = is_open pika.conn_is_open p.conn w && is_open pika.channel_is_open p.channel w

  -- `if not self._healthy(): self._open()`
  abbrev pub open_unless : Bool → Action (State W C H) ⊤
  open_unless true = pure tt
  open_unless false = reopen

  module _ (dumps : Dict → String) (repr : Json → String) (duplicate_mode : Bool)
      (routing_key : String) (body : Dict) where
    -- `assert self._channel is not None`, and the call of `publish`.
    abbrev pub publish_on : Option H → Action (State W C H) ⊤
    publish_on none s = raise assertion_error s
    publish_on (some ch) (p, w) =
        in_world
          (publish dumps repr (pika.basic_publish ch) duplicate_mode p.exchange routing_key body)
          (p, w)

    abbrev pub send : Action (State W C H) ⊤
    send (p, w) = publish_on p.channel (p, w)

    -- The `except`: one new connection and one more try.
    abbrev pub heal : Result ⊤ × State W C H → Result ⊤ × State W C H
    heal (ok _, s) = (ok tt, s)
    heal (err e, s) = if is_amqp_connection_error e then (reopen >> send) s else (err e, s)

    -- `Publisher.publish`
    unfoldable pub publish_own : Action (State W C H) ⊤
    unfolding reopen healthy publish
    publish_own = (λ s. open_unless (healthy s) s) >> (λ s. heal (send s))
