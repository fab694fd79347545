-- ===== src/Services/Observer/Feed.antt =====
-- services/observer/app/api.py: the live feed of the dashboard. What `accept` and `send_json` of a socket
-- do is given; a socket is known by a number. A coroutine runs to its end before the next one.
pub mod Ring
pub mod Clients
pub mod Shown
pub mod Live
use event_driven_demo.Base.{
  ℕ, Bool, true, false, List, [], ◌∷◌, ◌++◌, ◌==◌, ◌||◌, ltb, length, if◌then◌else◌,
}
use event_driven_demo.Pyevents.Effect.{Result, ok, err, ⊤, Action}

-- `_recent`, `_clients`, whether `_loop` is set, the coroutines that are scheduled, and the world.
pub record Feed (E W : Type 0) : Type 0 where
  pub recent : List E
  pub clients : List ℕ
  pub has_loop : Bool
  pub scheduled : List E
  pub world : W

abbrev pub maxlen : ℕ
maxlen = 100

-- `deque(maxlen=…).append`
abbrev pub drop_first : {A : Type 0} → List A → List A
drop_first [] = []
drop_first (x ∷ xs) = xs

unfoldable pub append : {A : Type 0} → ℕ → A → List A → List A
append most x xs = let ys = xs ++ x ∷ [] in if ltb most (length ys) then drop_first ys else ys

-- `item in set`
abbrev pub member : ℕ → List ℕ → Bool
member k [] = false
member k (j ∷ ks) = (j == k) || member k ks

-- `set.add`
abbrev pub add : ℕ → List ℕ → List ℕ
add k ks = if member k ks then ks else k ∷ ks

-- `set.discard`
abbrev pub discard : ℕ → List ℕ → List ℕ
discard k [] = []
discard k (j ∷ ks) = if j == k then discard k ks else j ∷ discard k ks

abbrev pub discard_all : List ℕ → List ℕ → List ℕ
discard_all [] ks = ks
discard_all (d ∷ ds) ks = discard_all ds (discard d ks)

abbrev pub failed : Result ⊤ → Bool
failed (ok _) = false
failed (err e) = true

module _ {E W : Type 0} (accept : ℕ → Action W ⊤) (send_json : ℕ → E → Action W ⊤) where
  -- `broadcast`
  unfoldable pub broadcast : E → Feed E W → Feed E W
  unfolding append
  broadcast event s =
      let t = record s { recent = append maxlen event s.recent } in
      if s.has_loop then record t { scheduled = t.scheduled ++ event ∷ [] } else t

  -- `for client in _clients`: the dead ones, and the world after it.
  abbrev pub send_all : List ℕ → E → W → List ℕ × W
  send_all [] event w = ([], w)
  send_all (client ∷ clients) event w =
      let (r, w') = send_json client event w in
      let (dead, w'') = send_all clients event w' in (if failed r then client ∷ dead else dead, w'')

  abbrev pub fan_out_event : E → Feed E W → Feed E W
  fan_out_event event s =
      let (dead, w) = send_all s.clients event s.world in
      record s { clients = discard_all dead s.clients; world = w }

  abbrev pub run_first : List E → Feed E W → Feed E W
  run_first [] s = s
  run_first (event ∷ rest) s = fan_out_event event (record s { scheduled = rest })

  -- The loop runs the first `_fan_out` that is scheduled.
  unfoldable pub fan_out : Feed E W → Feed E W
  fan_out s = run_first s.scheduled s

  -- `for item in list(_recent)`; after an exception the socket is given up.
  abbrev pub replay : List E → ℕ → W → Result ⊤ × W
  replay [] sock w = (ok tt, w)
  replay (item ∷ items) sock w =
      let (r, w') = send_json sock item w in
      let rest = replay items sock w' in if failed r then (r, w') else rest

  abbrev replayed : ℕ → Feed E W → Result ⊤ × W → Feed E W
  replayed sock s (r, w) = record s {
    clients = if failed r then discard sock s.clients else s.clients;
    world = w;
  }

  abbrev pub accepted : ℕ → Feed E W → Result ⊤ × W → Feed E W
  accepted sock s (err e, w) = record s { world = w }
  accepted sock s (ok _, w) =
      replayed sock (record s { clients = add sock s.clients; world = w }) (replay s.recent sock w)

  -- `ws`, until it waits for the socket.
  unfoldable pub enter : ℕ → Feed E W → Feed E W
  enter sock s = accepted sock s (accept sock s.world)

  -- `ws`, from the end of its wait on.
  unfoldable pub leave : ℕ → Feed E W → Feed E W
  leave sock s = record s { clients = discard sock s.clients }

-- The feed before anything has happened.
abbrev pub new_feed : {E W : Type 0} → Bool → W → Feed E W
new_feed has_loop w = record {
  recent = [];
  clients = [];
  has_loop = has_loop;
  scheduled = [];
  world = w;
}
