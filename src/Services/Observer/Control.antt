-- ===== src/Services/Observer/Control.antt =====
-- services/observer/app/api.py: `POST /control`, the dashboard's way into the failure lab.
use event_driven_demo.Base.{String}
use event_driven_demo.Pyevents.Json.{Json, string, obj, Dict, empty, item}
use event_driven_demo.Pyevents.Effect.{Action, pure, ◌>>=◌}
use event_driven_demo.Pyevents.Publisher.Healing.{Pika}
use event_driven_demo.Pyevents.Control.Command.{publish_command}
use event_driven_demo.Pyevents.Effect.{⊤}

-- The body of the request; the value is a flag or a number.
pub record Command : Type 0 where
  pub target : String
  pub action : String
  pub value : Json

-- `cmd.model_dump()`
abbrev pub model_dump : Command → Dict
model_dump cmd =
    item "target" (string cmd.target)
      (item "action" (string cmd.action) (item "value" cmd.value empty))

unfoldable pub control :
    {W C H : Type 0} → Pika W C H → (C → Action W ⊤) → (Dict → String) → Command → Action W Dict
unfolding publish_command
control pika close dumps cmd = publish_command pika close dumps (model_dump cmd) >>= λ _.
    pure (item "sent" (obj (model_dump cmd)) empty)
