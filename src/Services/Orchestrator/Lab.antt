-- ===== src/Services/Orchestrator/Lab.antt =====
-- services/orchestrator/app/__main__.py: `_on_command`.
use event_driven_demo.Base.{if◌then◌else◌}
use event_driven_demo.Pyevents.Json.{Dict, get}
use event_driven_demo.Services.Control.{Switches, truthy, says, set_relay_paused}

unfoldable pub on_command : Dict → Switches → Switches
unfolding set_relay_paused
on_command command s =
    if says "action" "pause_relay" command
    then set_relay_paused (truthy (get "value" command)) s
    else s
