-- ===== src/Pyevents/Schema.antt =====
-- `run_script` and `ensure_processed_events` of libs/pyevents/pyevents/db.py, run by several sessions at
-- once. A script is the list of the names that its CREATE … IF NOT EXISTS statements create. As the
-- docstring of `run_script` says, such a statement first looks whether the name is there and then
-- inserts it in the catalog, and another session may come in between; a name that is in the catalog by
-- then is a duplicate key. A name that another open transaction has inserted makes the session wait,
-- as does the advisory lock, which the end of the transaction that has taken it releases.
pub mod Places
pub mod Steps
pub mod Serialised
pub mod Finishes
mod Examples
use event_driven_demo.Base.{
  ℕ, ◌≡◌, refl, String, Bool, false, Option, none, some, List, [], ◌∷◌, ◌++◌, ◌==◌, ◌||◌, elem,
  str_eq, if◌then◌else◌,
}

pub data Statement : Type 0 where
  advisory_xact_lock : Statement
  create_if_not_exists : (name : String) → Statement
  commit_work : Statement

abbrev pub creates : List String → List Statement
creates [] = []
creates (name ∷ names) = create_if_not_exists name ∷ creates names

unfoldable pub run_script : List String → List Statement
run_script sql_text = advisory_xact_lock ∷ (creates sql_text ++ commit_work ∷ [])

unfoldable pub ensure_processed_events : List Statement
ensure_processed_events = creates ("processed_events" ∷ []) ++ commit_work ∷ []

-- How a call is: it runs, has returned, has raised, or its process was killed.
pub data Status : Type 0 where
  running returned raised killed : Status

-- A call in a session: the statements left, and the name that the current one has not found.
pub record Session : Type 0 where
  pub todo : List Statement
  pub missing : Option String
  pub status : Status

-- The server: who holds the lock, the committed names, and those that open transactions have inserted.
pub record Server : Type 0 where
  pub lock_holder : Option ℕ
  pub committed : List String
  pub inserted : List (ℕ × String)
  pub sessions : ℕ → Session

abbrev pub own : ℕ → List (ℕ × String) → List String
own i [] = []
own i ((j, name) ∷ rows) = if j == i then name ∷ own i rows else own i rows

abbrev pub others : ℕ → List (ℕ × String) → List (ℕ × String)
others i [] = []
others i ((j, name) ∷ rows) = if j == i then others i rows else (j, name) ∷ others i rows

-- Another open transaction has inserted the name.
abbrev pub is_contended : ℕ → String → List (ℕ × String) → Bool
is_contended i name [] = false
is_contended i name ((j, other) ∷ rows) =
    let rest = is_contended i name rows in if j == i then rest else str_eq other name || rest

-- What session `i` sees.
abbrev pub is_there : ℕ → String → Server → Bool
is_there i name w = elem name w.committed || elem name (own i w.inserted)

abbrev pub with_session : ℕ → Session → Server → Server
with_session i s w = record w { sessions = λ j. if j == i then s else w.sessions j }

abbrev pub released : ℕ → Option ℕ → Option ℕ
released i none = none
released i (some j) = if j == i then none else some j

-- The transaction of session `i` ends without a commit, and its call with it.
unfoldable pub abort : ℕ → Status → Server → Server
abort i status w =
    with_session i (record { todo = []; missing = none; status = status })
      (record w { lock_holder = released i w.lock_holder; inserted = others i w.inserted })

-- A call whose last statement was executed returns.
abbrev pub status_after : List Statement → Status
status_after [] = returned
status_after (_ ∷ _) = running

abbrev pub left_over : List Statement → Option String → Session
left_over todo missing = record { todo = todo; missing = missing; status = running }

abbrev pub take_lock : ℕ → List Statement → Option ℕ → Server → Server
take_lock i todo none w = with_session i (left_over todo none) (record w { lock_holder = some i })
take_lock i todo (some j) w = if j == i then with_session i (left_over todo none) w else w

abbrev pub insert : ℕ → String → List Statement → Server → Server
insert i name todo w =
    if elem name w.committed
    then abort i raised w
    else if is_contended i name w.inserted
    then w
    else with_session i (left_over todo none) (record w { inserted = (i, name) ∷ w.inserted })

abbrev pub end_transaction : ℕ → List Statement → Server → Server
end_transaction i todo w =
    with_session i (record { todo = todo; missing = none; status = status_after todo })
      (record w {
        lock_holder = released i w.lock_holder;
        committed = own i w.inserted ++ w.committed;
        inserted = others i w.inserted;
      })

abbrev pub execute : ℕ → List Statement → Option String → Server → Server
execute i todo (some name) w = insert i name todo w
execute i [] none w = w
execute i (advisory_xact_lock ∷ todo) none w = take_lock i todo w.lock_holder w
execute i (create_if_not_exists name ∷ todo) none w =
    with_session i (left_over todo (if is_there i name w then none else some name)) w
execute i (commit_work ∷ todo) none w = end_transaction i todo w

-- The next step of session `i`, which may be to wait.
unfoldable pub turn : ℕ → Server → Server
unfolding abort
turn i w = execute i (w.sessions i).todo (w.sessions i).missing w

pub data Event : Type 0 where
  goes killed_at : (session : ℕ) → Event

unfoldable pub happen : Event → Server → Server
unfolding turn abort
happen (goes i) = turn i
happen (killed_at i) = abort i killed

abbrev pub run : List Event → Server → Server
run [] w = w
run (e ∷ es) w = run es (happen e w)

-- Every session is about to run its statements.
abbrev pub start : List String → (ℕ → List Statement) → Server
start committed programs = record {
  lock_holder = none;
  committed = committed;
  inserted = [];
  sessions = λ i. left_over (programs i) none;
}

-- Without the lock, the second of two sessions that have both looked raises.
ensure_races :
    ((run
        (goes 1 ∷ goes 2 ∷ goes 1 ∷ goes 1 ∷ goes 2 ∷ [])
        (start [] (λ i. ensure_processed_events))).sessions
      2).status
    ≡ raised
unfolding happen turn abort ensure_processed_events
ensure_races = refl
