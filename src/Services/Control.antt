-- ===== src/Services/Control.antt =====
-- The failure-lab commands that reach every service by libs/pyevents/pyevents/control.py, and the
-- two switches of the library that they flip: `set_duplicate_mode` of publisher.py and
-- `set_relay_paused` of outbox.py.
use event_driven_demo.Base.{
  zero, suc, String, Bool, true, false, Option, none, some, str_eq, if◌then◌else◌,
}
use event_driven_demo.Pyevents.Json.{
  Json, null, flag, num, string, arr, obj, nil, cons, Dict, empty, item, get,
}

-- The module-level switches of one process.
pub record Switches : Type 0 where
  pub duplicate_mode : Bool
  pub relay_paused : Bool

-- `bool(value)`; a missing value is None.
abbrev pub truthy : Option Json → Bool
truthy none = false
truthy (some null) = false
truthy (some (flag b)) = b
truthy (some (num zero)) = false
truthy (some (num (suc n))) = true
truthy (some (string s)) = if str_eq s "" then false else true
truthy (some (arr nil)) = false
truthy (some (arr (cons v vs))) = true
truthy (some (obj empty)) = false
truthy (some (obj (item k v d))) = true

abbrev pub is_text : String → Option Json → Bool
is_text text (some (string s)) = str_eq s text
is_text text _ = false

-- `command.get(key) == text`
abbrev pub says : String → String → Dict → Bool
says key text command = is_text text (get key command)

unfoldable pub set_duplicate_mode : Bool → Switches → Switches
set_duplicate_mode on s = record s { duplicate_mode = on }

unfoldable pub set_relay_paused : Bool → Switches → Switches
set_relay_paused on s = record s { relay_paused = on }
