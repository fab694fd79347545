-- ===== src/Pyevents/Publisher/Samples.antt =====
-- A broker for the tests of the publishers.
use event_driven_demo.Base.{refl, sym, inl, inr, Bool, true, false, List, [], ◌∷◌, ◌++◌}
use mathlib.Core.List.{append-nil}
use event_driven_demo.Pyevents.Effect.{ok, err, amqp_error, ⊤, Action}
use event_driven_demo.Pyevents.Publisher.{Sent}
use event_driven_demo.Pyevents.Publisher.Delivers.{Delivers}
use event_driven_demo.Pyevents.Publisher.Healing.{Pika}
use event_driven_demo.Pyevents.Publisher.Healing.Quiet.{Logs}

-- A broker that has dropped the channel, which the publisher does not see: whether the channel is
-- alive, and what has gone out.
abbrev pub World : Type 0
World = Bool × List Sent

abbrev pub give : ⊤ → Sent → Action World ⊤
give ch m (true, out) = (ok tt, (true, out ++ m ∷ []))
give ch m (false, out) = (err amqp_error, (false, out))

abbrev pub dropped : Pika World ⊤ ⊤
dropped = record {
  open_once = λ w. (ok tt, w);
  sleep = λ delay w. w;
  new_channel = λ c (alive, out). (ok tt, (true, out));
  exchange_declare = λ ch exchange kind w. (ok tt, w);
  conn_is_open = λ c w. true;
  channel_is_open = λ ch w. true;
  basic_publish = give;
}

pub give-Delivers : (ch : ⊤) (m : Sent) (w : World) → Delivers (λ x. x.1) (m ∷ []) w (give ch m w)
give-Delivers ch m (true, out) = inl (refl, refl)
give-Delivers ch m (false, out) = inr (amqp_error, [], m ∷ [], refl, refl, sym (append-nil out))

pub dropped-Logs : Logs dropped (λ x. x.1)
dropped-Logs = record {
  opens = λ w. refl;
  sleeps = λ delay w. refl;
  channels = λ c w. refl;
  declares = λ ch exchange kind w. refl;
  publishes = give-Delivers;
}
