-- ===== src/Pyevents/Json.antt =====
-- The JSON bodies of messages, as Python sees them after `json.loads`. Numbers are the naturals that
-- the schemas in contracts/ allow.
use event_driven_demo.Base.{ℕ, String, Bool, true, false, Option, none, some, str_eq, if◌then◌else◌}
use event_driven_demo.Base.Text.{str}

mutual
  pub data Json : Type 0 where
    null : Json
    flag : Bool → Json
    num : ℕ → Json
    string : String → Json
    arr : Items → Json
    obj : Dict → Json

  pub data Items : Type 0 where
    nil : Items
    cons : Json → Items → Items

  -- A dict, its items in order.
  pub data Dict : Type 0 where
    empty : Dict
    item : String → Json → Dict → Dict

-- `body.get(key)`
abbrev pub get : String → Dict → Option Json
get k empty = none
get k (item j v d) = if str_eq j k then some v else get k d

-- Python's text of a container is given.
module _ (repr : Json → String) where
  -- `str(value)`
  abbrev pub str_json : Json → String
  str_json null = "None"
  str_json (flag true) = "True"
  str_json (flag false) = "False"
  str_json (num n) = str n
  str_json (string s) = s
  str_json (arr vs) = repr (arr vs)
  str_json (obj d) = repr (obj d)
