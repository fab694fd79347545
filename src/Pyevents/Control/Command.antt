-- ===== src/Pyevents/Control/Command.antt =====
-- libs/pyevents/pyevents/control.py: `publish_command`, on what pika does and the closing of a connection.
use mathlib.Core.List.{append-nil}
use event_driven_demo.Base.{◌≡◌, refl, sym, ap, ◌∙◌, inl, inr, String, List, [], ◌∷◌, ◌++◌}
use event_driven_demo.Pyevents.Json.{Dict}
use event_driven_demo.Pyevents.Effect.{Result, ok, err, ⊤, Action, ◌>>=◌, ◌>>◌}
use event_driven_demo.Pyevents.Connection.{connect, attempts_keeps, is_amqp_connection_error}
use event_driven_demo.Pyevents.Publisher.{Sent}
use event_driven_demo.Pyevents.Publisher.Delivers.{Delivers, Delivers-seq}
use event_driven_demo.Pyevents.Publisher.Healing.{Pika}
use event_driven_demo.Pyevents.Publisher.Healing.Quiet.{Logs}

abbrev pub control_exchange : String
control_exchange = "control"

-- A message without properties.
abbrev pub command_message : (Dict → String) → Dict → Sent
command_message dumps command = record {
  exchange = control_exchange;
  routing_key = "";
  payload = dumps command;
  message_id = "";
  kind = "";
}

module _ {W C H : Type 0} (pika : Pika W C H) (close : C → Action W ⊤) (dumps : Dict → String) where
  -- `connect(retries=3, delay=1)`, and the rest.
  unfoldable pub publish_command : Dict → Action W ⊤
  unfolding connect
  publish_command command = connect pika.open_once pika.sleep 3 1000 >>= λ conn.
      pika.new_channel conn >>= λ ch.
      pika.exchange_declare ch control_exchange "fanout"
      >> (pika.basic_publish ch (command_message dumps command) >> close conn)

-- What follows an action that sends nothing.
Delivers-quiet :
    {W A : Type 0} (log : W → List Sent) (out : List Sent) (m : Action W A) (k : A → Action W ⊤)
    (w : W)
    → log (m w).1 ≡ log w
    → ((a : A) (w' : W) → Delivers log out w' (k a w'))
    → Delivers log out w ((m >>= k) w)
Delivers-quiet {W} {A} log out m k w same h = by_result (m w) same
  where
    by_result : (y : Result A × W) → log y.1 ≡ log w → Delivers log out w (((λ _. y) >>= k) w)
    by_result (err e, w') q = inr (e, [], out, refl, refl, q ∙ sym (append-nil (log w)))
    by_result (ok a, w') q = elim (h a w') [
      | inl (p, l) ↦ inl (p, l ∙ ap (λ x. x ++ out) q)
      | inr (e, done, rest, p, s, l) ↦ inr (e, done, rest, p, s, l ∙ ap (λ x. x ++ done) q)
    ]

module _ {W C H : Type 0} (pika : Pika W C H) (close : C → Action W ⊤) (log : W → List Sent)
    (logs : Logs pika log) (closes : (c : C) (w : W) → log (close c w).1 ≡ log w)
    (dumps : Dict → String) where
  close-Delivers : (c : C) (w : W) → Delivers log [] w (close c w)
  close-Delivers c w = by_result (close c w) (closes c w)
    where
      by_result : (y : Result ⊤ × W) → log y.1 ≡ log w → Delivers log [] w y
      by_result (ok _, w') q = inl (refl, q ∙ sym (append-nil (log w)))
      by_result (err e, w') q = inr (e, [], [], refl, refl, q ∙ sym (append-nil (log w)))

  pub publish_command-Delivers :
      (command : Dict) (w : W)
      → Delivers log
          (command_message dumps command ∷ [])
          w
          (publish_command pika close dumps command w)
  unfolding publish_command connect
  publish_command-Delivers command w =
      let m = command_message dumps command in
      Delivers-quiet log (m ∷ []) (connect pika.open_once pika.sleep 3 1000) _ w
        (attempts_keeps pika.open_once pika.sleep log logs.opens logs.sleeps
          is_amqp_connection_error 3 1000 w)
        (λ conn w'.
          Delivers-quiet log (m ∷ []) (pika.new_channel conn) _ w' (logs.channels conn w')
            (λ ch w''.
              Delivers-quiet log (m ∷ []) (pika.exchange_declare ch control_exchange "fanout") _ w''
                (logs.declares ch control_exchange "fanout" w'')
                (λ _ v.
                  Delivers-seq log (close conn) (m ∷ []) [] v (close-Delivers conn)
                    (pika.basic_publish ch m) (logs.publishes ch m v))))
