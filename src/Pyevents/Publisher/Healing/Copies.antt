-- ===== src/Pyevents/Publisher/Healing/Copies.antt =====
-- How often the class `Publisher` of libs/pyevents/pyevents/publisher.py publishes a message.
use mathlib.Core.List.{append-nil, append_assoc}
use event_driven_demo.Base.{
  ◌≡◌, refl, sym, ap, subst, ◌∙◌, ◌⊎◌, inl, inr, String, Bool, Option, none, some, List, [], ◌++◌,
  Bool-cases, if◌then◌else◌,
}
use event_driven_demo.Pyevents.Json.{Json, Dict}
use event_driven_demo.Pyevents.Effect.{Error, assertion_error, Result, ok, err, ⊤, Action, ◌>>◌}
use event_driven_demo.Pyevents.Connection.{is_amqp_connection_error}
use event_driven_demo.Pyevents.Publisher.{Sent, sent_of, publish}
use event_driven_demo.Pyevents.Publisher.Delivers.{Delivers, copies, repeat-Delivers}
use event_driven_demo.Pyevents.Publisher.Healing.{
  Pika, State, reopen, healthy, open_unless, publish_on, send, heal, publish_own,
}
use event_driven_demo.Pyevents.Publisher.Healing.Quiet.{
  Logs, sent, seen, reopen-Quiet, open_unless-Quiet,
}

-- A beginning of what is to be sent.
abbrev pub Beginning : List Sent → List Sent → Type 0
Beginning done out = (rest : List Sent) × (out ≡ done ++ rest)

-- How a call that is to send `out` ends, by its result and what has gone out before and after it: after
-- a beginning of `out`, which a dropped connection may have left, either all of it has been sent, or the
-- call has raised after one more beginning of it.
abbrev pub Copied : (before out : List Sent) → Result ⊤ → List Sent → Type 0
Copied before out r after =
    (first : List Sent) × Beginning first out
    × (((r ≡ ok tt) × (after ≡ before ++ (first ++ out)))
        ⊎ ((e : Error) × (second : List Sent) × Beginning second out
            × (r ≡ err e)
            × (after ≡ before ++ (first ++ second))))

-- What one call is to send.
abbrev pub all_copies :
    (Dict → String) → (Json → String) → Bool → String → Dict → String → List Sent
all_copies dumps repr duplicate_mode routing_key body exchange =
    copies (if duplicate_mode then 2 else 1) (sent_of dumps repr exchange routing_key body)

module _ {W C H : Type 0} (pika : Pika W C H) (log : W → List Sent) (logs : Logs pika log)
    (dumps : Dict → String) (repr : Json → String) (duplicate_mode : Bool) (routing_key : String)
    (body : Dict) where
  abbrev looks : State W C H → String × List Sent
  looks = seen log

  abbrev gone : State W C H → List Sent
  gone = sent log

  abbrev all_on : String → List Sent
  all_on = all_copies dumps repr duplicate_mode routing_key body

  abbrev send_own : Action (State W C H) ⊤
  send_own = send pika dumps repr duplicate_mode routing_key body

  abbrev heal_own : Result ⊤ × State W C H → Result ⊤ × State W C H
  heal_own = heal pika dumps repr duplicate_mode routing_key body

  publish_on-Delivers :
      (h : Option H) (s : State W C H)
      → Delivers gone
          (all_on s.0.exchange)
          s
          (publish_on pika dumps repr duplicate_mode routing_key body h s)
  unfolding publish
  publish_on-Delivers none s =
      inr (assertion_error, [], all_on s.0.exchange, refl, refl, sym (append-nil (gone s)))
  publish_on-Delivers (some ch) (p, w) =
      repeat-Delivers dumps repr (pika.basic_publish ch) log (logs.publishes ch) _ _ w

  publish_on_exchange :
      (h : Option H) (s : State W C H)
      → (publish_on pika dumps repr duplicate_mode routing_key body h s).1.0.exchange ≡ s.0.exchange
  publish_on_exchange none s = refl
  publish_on_exchange (some ch) s = refl

  -- What is sent from a state, seen from one that looks the same.
  Delivers-from :
      (x : String) (s s' : State W C H) (y : Result ⊤ × State W C H)
      → looks s' ≡ (x, gone s)
      → Delivers gone (all_on s'.0.exchange) s' y
      → Delivers gone (all_on x) s y
  Delivers-from x s s' y h d =
      elim (subst (λ z. Delivers gone (all_on z) s' y) (ap (λ k. k.0) h) d) [
        | inl (p, l) ↦ inl (p, l ∙ ap (λ k. k.1 ++ all_on x) h)
        | inr (e, done, rest, p, q, l) ↦ inr (e, done, rest, p, q, l ∙ ap (λ k. k.1 ++ done) h)
      ]

  -- After another action that sends nothing, a try is as at once.
  retried :
      (x : String) (s : State W C H) (y : Result ⊤ × State W C H)
      → looks y.1 ≡ (x, gone s)
      → Delivers gone (all_on x) s (((λ _. y) >> send_own) s)
  retried x s (err e, s') h =
      inr (e, [], all_on x, refl, refl, ap (λ k. k.1) h ∙ sym (append-nil (gone s)))
  retried x s (ok _, s') h =
      Delivers-from x s s' (send_own s') h (publish_on-Delivers s'.0.channel s')

  -- A second try, after a beginning of what is to be sent.
  Copied-again :
      (before out first : List Sent) (s : State W C H) (z : Result ⊤ × State W C H)
      → Beginning first out
      → gone s ≡ before ++ first
      → Delivers gone out s z
      → Copied before out z.0 (gone z.1)
  Copied-again before out first s z b l (inl (q, m)) =
      (first, b, inl (q, m ∙ ap (λ k. k ++ out) l ∙ append_assoc before first out))
  Copied-again before out first s z b l (inr (e, second, rest, q, p, m)) = (
    first,
    b,
    inr (e, second, (rest, p), q, m ∙ ap (λ k. k ++ second) l ∙ append_assoc before first second),
  )

  heal-Copied :
      (x : String) (s : State W C H) (y : Result ⊤ × State W C H)
      → Delivers gone (all_on x) s y
      → y.1.0.exchange ≡ x
      → Copied (gone s) (all_on x) (heal_own y).0 (gone (heal_own y).1)
  heal-Copied x s (ok _, s') (inl (p, l)) e = ([], (all_on x, refl), inl (refl, l))
  heal-Copied x s (ok _, s') (inr (f, done, rest, p, q, l)) e = cc
  heal-Copied x s (err g, s') (inl (p, l)) e = cc
  heal-Copied x s (err g, s') (inr (f, done, rest, p, q, l)) e =
      elim (Bool-cases (is_amqp_connection_error g)) [
        | inl caught ↦
            let again = (reopen pika >> send_own) s' in
            let same : heal_own (err g, s') ≡ again = rw caught refl in
            subst (λ z. Copied (gone s) (all_on x) z.0 (gone z.1)) (sym same)
              (Copied-again (gone s) (all_on x) done s' again (rest, q) l
                (retried x s' (reopen pika s')
                  (reopen-Quiet pika log logs s' ∙ ap (λ k. (k, gone s')) e)))
        | inr out ↦
            let same : heal_own (err g, s') ≡ (err g, s') = rw out refl in
            subst (λ z. Copied (gone s) (all_on x) z.0 (gone z.1)) (sym same)
              ([], (all_on x, refl), inr (g, done, (rest, q), refl, l))
      ]

  checked :
      (x : String) (s : State W C H) (y : Result ⊤ × State W C H)
      → looks y.1 ≡ (x, gone s)
      → Copied
          (gone s)
          (all_on x)
          (((λ _. y) >> (λ z. heal_own (send_own z))) s).0
          (gone (((λ _. y) >> (λ z. heal_own (send_own z))) s).1)
  checked x s (err e, s') h = (
    [],
    (all_on x, refl),
    inr (e, [], (all_on x, refl), refl, ap (λ k. k.1) h ∙ sym (append-nil (gone s))),
  )
  checked x s (ok _, s') h =
      subst (λ l. Copied l (all_on x) (heal_own (send_own s')).0 (gone (heal_own (send_own s')).1))
        (ap (λ k. k.1) h)
        (heal-Copied x s' (send_own s')
          (Delivers-from x s' s' (send_own s') (ap (λ k. (k.0, gone s')) h)
            (publish_on-Delivers s'.0.channel s'))
          (publish_on_exchange s'.0.channel s' ∙ ap (λ k. k.0) h))

  -- A call of Publisher.publish that returns has sent all its copies, two in duplicate mode, and before
  -- them at most a beginning of them on a connection that was lost; one that raises has sent at most two
  -- beginnings of them.
  pub publish_own-Copied :
      (s : State W C H)
      → Copied
          (log s.1)
          (all_copies dumps repr duplicate_mode routing_key body s.0.exchange)
          (publish_own pika dumps repr duplicate_mode routing_key body s).0
          (log (publish_own pika dumps repr duplicate_mode routing_key body s).1.1)
  unfolding publish_own
  publish_own-Copied s =
      checked s.0.exchange s (open_unless pika (healthy pika s) s)
        (open_unless-Quiet pika log logs (healthy pika s) s)
