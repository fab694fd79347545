-- ===== src/Pyevents/Publisher/Healing/Heals.antt =====
-- The class `Publisher` of libs/pyevents/pyevents/publisher.py gets over a lost connection.
use event_driven_demo.Base.{
  ℕ, zero, suc, ◌≡◌, refl, sym, ap, subst, ◌∙◌, inl, inr, String, Bool, true, false, Option, none,
  some, arith, ◌&&◌,
}
use event_driven_demo.Pyevents.Json.{Json, Dict}
use event_driven_demo.Pyevents.Effect.{
  Error, amqp_error, Result, ok, err, ⊤, Action, ◌>>◌, Result-cases, bind_ok, bind_err,
}
use event_driven_demo.Pyevents.Connection.{
  connect, attempts_end, is_amqp_connection_error, default_retries, default_delay,
}
use event_driven_demo.Pyevents.Publisher.{Sent, repeat, publish}
use event_driven_demo.Pyevents.Publisher.Healing.{
  is_open, Pika, Publisher, State, in_world, take_channel, take_connection, reopen, healthy,
  open_unless, publish_on, send, heal, publish_own,
}

-- A broker that is up: a connection opens, and a channel that is opened on it is live, stays live and
-- accepts what it is given. A channel that is not live may raise, but only that its connection is lost.
pub record Revives {W C H : Type 0} (pika : Pika W C H) (Live : H → W → Type 0) : Type 0 where
  pub opens : (w : W) → (c : C) × ((pika.open_once w).0 ≡ ok c)
  pub channels :
      (c : C) (w : W)
      → (ch : H) × ((pika.new_channel c w).0 ≡ ok ch) × Live ch (pika.new_channel c w).1
  pub declares :
      (ch : H) (exchange kind : String) (w : W)
      → Live ch w
      → ((pika.exchange_declare ch exchange kind w).0 ≡ ok tt)
        × Live ch (pika.exchange_declare ch exchange kind w).1
  pub accepts :
      (ch : H) (m : Sent) (w : W)
      → Live ch w
      → ((pika.basic_publish ch m w).0 ≡ ok tt) × Live ch (pika.basic_publish ch m w).1
  pub only_lost :
      (ch : H) (m : Sent) (w : W) (e : Error)
      → (pika.basic_publish ch m w).0 ≡ err e
      → e ≡ amqp_error

module _ {W C H : Type 0} (pika : Pika W C H) (Live : H → W → Type 0) (up : Revives pika Live) where
  -- The publisher has a live channel.
  abbrev Lives : Result ⊤ × State W C H → Type 0
  Lives y = (ch : H) × (y.0 ≡ ok tt) × (y.1.0.channel ≡ some ch) × Live ch y.1.1

  take_channel-Lives :
      (ch : H) (p : Publisher C H) (w : W) → Live ch w → Lives (take_channel pika ch (p, w))
  take_channel-Lives ch p w h =
      let (returned, live) = up.declares ch p.exchange p.exchange_type w h in
      (ch, returned, refl, live)

  take_connection-Lives :
      (c : C) (p : Publisher C H) (w : W) → Lives (take_connection pika c (p, w))
  take_connection-Lives c p w =
      let (ch, returned, live) = up.channels c w in
      let q = record p { conn = some c } in
      subst Lives
        (sym (bind_ok (in_world (pika.new_channel c)) (take_channel pika) (q, w) ch returned))
        (take_channel-Lives ch q (pika.new_channel c w).1 live)

  connects :
      (w : W)
      → (c : C) × ((connect pika.open_once pika.sleep default_retries default_delay w).0 ≡ ok c)
  unfolding connect
  connects w =
      let (c, returned) = up.opens w in
      (
        c,
        ap (λ y. y.0)
              (attempts_end pika.open_once pika.sleep is_amqp_connection_error 29 default_delay w
                (inl (c, returned)))
            ∙ returned,
      )

  reopen-Lives : (s : State W C H) → Lives (reopen pika s)
  unfolding reopen
  reopen-Lives (p, w) =
      let (c, returned) = connects w in
      let opened = connect pika.open_once pika.sleep default_retries default_delay in
      subst Lives (sym (bind_ok (in_world opened) (take_connection pika) (p, w) c returned))
        (take_connection-Lives c p (opened w).1)

  module _ (dumps : Dict → String) (repr : Json → String) (duplicate_mode : Bool)
      (routing_key : String) (body : Dict) where
    repeat_ok :
        (n : ℕ) (m : Sent) (ch : H) (w : W)
        → Live ch w
        → (repeat dumps repr (pika.basic_publish ch) n m w).0 ≡ ok tt
    unfolding repeat
    repeat_ok zero m ch w h = refl
    repeat_ok (suc n) m ch w h =
        let (returned, live) = up.accepts ch m w h in
        let rest = repeat dumps repr (pika.basic_publish ch) n m in
        ap (λ y. y.0) (bind_ok (pika.basic_publish ch m) (λ _. rest) w tt returned)
        ∙ repeat_ok n m ch (pika.basic_publish ch m w).1 live

    repeat_lost :
        (n : ℕ) (m : Sent) (ch : H) (w : W) (e : Error)
        → (repeat dumps repr (pika.basic_publish ch) n m w).0 ≡ err e
        → e ≡ amqp_error
    unfolding repeat
    repeat_lost zero m ch w e h = cc
    repeat_lost (suc n) m ch w e h = elim (Result-cases (pika.basic_publish ch m w).0) [
      | inl (_, returned) ↦
          let rest = repeat dumps repr (pika.basic_publish ch) n m in
          repeat_lost n m ch (pika.basic_publish ch m w).1 e
            (sym (ap (λ y. y.0) (bind_ok (pika.basic_publish ch m) (λ _. rest) w tt returned)) ∙ h)
      | inr (f, raised) ↦
          let rest = repeat dumps repr (pika.basic_publish ch) n m in
          let same : err f ≡ err e =
            sym (ap (λ y. y.0) (bind_err (pika.basic_publish ch m) (λ _. rest) w f raised)) ∙ h in
          up.only_lost ch m w e (raised ∙ same)
    ]

    abbrev send_own : Action (State W C H) ⊤
    send_own = send pika dumps repr duplicate_mode routing_key body

    publish_on_ok :
        (h : Option H) (ch : H) (s : State W C H)
        → h ≡ some ch
        → Live ch s.1
        → (publish_on pika dumps repr duplicate_mode routing_key body h s).0 ≡ ok tt
    unfolding publish
    publish_on_ok none ch s e live = cc
    publish_on_ok (some c) ch (p, w) e live =
        let same : ch ≡ c = cc in repeat_ok _ _ c w (subst (λ x. Live x w) same live)

    send_live : (y : Result ⊤ × State W C H) → Lives y → (send_own y.1).0 ≡ ok tt
    send_live y (ch, returned, owns, live) = publish_on_ok y.1.0.channel ch y.1 owns live

    -- A publisher that has a channel is only stopped by a lost connection.
    send_lost :
        (h : Option H) (c : H) (s : State W C H) (e : Error)
        → h ≡ some c
        → (publish_on pika dumps repr duplicate_mode routing_key body h s).0 ≡ err e
        → e ≡ amqp_error
    unfolding publish
    send_lost none c s e has h = cc
    send_lost (some b) c (p, w) e has h = repeat_lost _ _ b w e h

    heal_ok :
        (y : Result ⊤ × State W C H)
        → ((e : Error) → y.0 ≡ err e → e ≡ amqp_error)
        → (heal pika dumps repr duplicate_mode routing_key body y).0 ≡ ok tt
    heal_ok (ok _, s') h = refl
    heal_ok (err e, s') h =
        let again = reopen-Lives s' in
        let second : ((reopen pika >> send_own) s').0 ≡ ok tt =
          ap (λ y. y.0) (bind_ok (reopen pika) (λ _. send_own) s' tt again.1)
          ∙ send_live (reopen pika s') again in
        rw (h e refl) second

    own_channel :
        (s : State W C H) (h : Option H)
        → (is_open pika.conn_is_open s.0.conn s.1 && is_open pika.channel_is_open h s.1) ≡ true
        → (c : H) × (h ≡ some c)
    own_channel s none e = absurd (no_channel (is_open pika.conn_is_open s.0.conn s.1) e)
      where
        no_channel : (b : Bool) → (b && false) ≡ true → ⊥
        no_channel b e = ground arith
    own_channel s (some c) e = (c, refl)

    -- What a publisher that is open, or has been opened anew, starts from.
    ready :
        (s : State W C H) (good : Bool)
        → healthy pika s ≡ good
        → ((open_unless pika good s).0 ≡ ok tt)
          × ((c : H) × ((open_unless pika good s).1.0.channel ≡ some c))
    unfolding healthy
    ready s true e = (refl, own_channel s s.0.channel e)
    ready s false e = let (ch, returned, owns, live) = reopen-Lives s in (returned, (ch, owns))

    -- While the broker is up, every call of Publisher.publish returns, also when the connection or the
    -- channel has been lost, before the call or during it.
    pub publish_own_returns :
        (s : State W C H)
        → (publish_own pika dumps repr duplicate_mode routing_key body s).0 ≡ ok tt
    unfolding publish_own
    publish_own_returns s =
        let (returned, (c, owns)) = ready s (healthy pika s) refl in
        let s' = (open_unless pika (healthy pika s) s).1 in
        let rest : Action (State W C H) ⊤ =
          λ z. heal pika dumps repr duplicate_mode routing_key body (send_own z) in
        ap (λ y. y.0) (bind_ok (λ z. open_unless pika (healthy pika z) z) (λ _. rest) s tt returned)
        ∙ heal_ok (send_own s') (λ e. send_lost s'.0.channel c s' e owns)
