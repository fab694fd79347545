-- ===== src/Pyevents/Control.antt =====
-- libs/pyevents/pyevents/control.py: what the listener of a process does with one message of the control
-- exchange. The JSON parser is given; a message is a text.
pub mod Command
use event_driven_demo.Base.{◌≡◌, String, Option, none, some}
use event_driven_demo.Pyevents.Json.{Json, null, flag, num, string, arr, obj, Dict}

module _ {S : Type 0} (loads : String → Option Json) (handler : Dict → S → S) where
  -- A text that does not parse is passed over. What is no dict has no `get`: the handler's exception
  -- is printed and nothing else happens.
  abbrev handle_json : Option Json → S → S
  handle_json none s = s
  handle_json (some (obj command)) s = handler command s
  handle_json (some _) s = s

  -- `_on_msg` of `listen_for_commands`
  unfoldable pub on_msg : String → S → S
  on_msg raw = handle_json (loads raw)

-- Two listeners agree on a message where they agree on every command.
module _ {S T X : Type 0} (loads : String → Option Json) (h : Dict → S → S) (k : Dict → T → T)
    (f : S → X) (g : T → X)
    (agree : (c : Dict) (s : S) (t : T) → f s ≡ g t → f (h c s) ≡ g (k c t)) where
  handle_json_same :
      (v : Option Json) (s : S) (t : T)
      → f s ≡ g t
      → f (handle_json loads h v s) ≡ g (handle_json loads k v t)
  handle_json_same none s t e = e
  handle_json_same (some (obj command)) s t e = agree command s t e
  handle_json_same (some null) s t e = e
  handle_json_same (some (flag b)) s t e = e
  handle_json_same (some (num n)) s t e = e
  handle_json_same (some (string x)) s t e = e
  handle_json_same (some (arr vs)) s t e = e

  pub on_msg_same :
      (raw : String) (s : S) (t : T)
      → f s ≡ g t
      → f (on_msg loads h raw s) ≡ g (on_msg loads k raw t)
  unfolding on_msg
  on_msg_same raw s t e = handle_json_same (loads raw) s t e
