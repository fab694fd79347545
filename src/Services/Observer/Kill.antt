-- ===== src/Services/Observer/Kill.antt =====
-- services/observer/app/api.py: `POST /kill`, on what the Docker SDK does. An exception's text and the
-- class APIError are given.
pub mod Restarts
use event_driven_demo.Base.{
  ℕ, ◌≡◌, refl, ◌∙◌, ap, ◌⊎◌, inl, inr, String, Bool, true, List, [], ◌∷◌, elem, length, All,
  if◌then◌else◌,
}
use Prim.Native.String.{◌++◌ as text_append}
use event_driven_demo.Pyevents.Json.{Json, string, num, arr, Items, nil, cons, Dict, empty, item}
use event_driven_demo.Pyevents.Effect.{Error, Result, ok, err, ⊤, Action, pure, ◌>>=◌, ◌>>◌}

-- The Docker SDK: `docker.from_env`, the containers with the labels of a project and a service, and
-- the calls of a container.
pub record Docker (W D C : Type 0) : Type 0 where
  pub from_env : Action W D
  pub list_containers : D → (project service : String) → Action W (List C)
  pub kill_container : C → (signal : String) → Action W ⊤
  pub start : C → Action W ⊤

-- `_KILLABLE`
abbrev pub killable : List String
killable =
    "order-service" ∷ "payment-service" ∷ "inventory-service" ∷ "shipping-service" ∷ "orchestrator"
    ∷ []

-- `sorted(_KILLABLE)`
abbrev pub allowed : Items
allowed = cons (string "inventory-service") (
    cons (string "orchestrator") (
      cons (string "order-service")
        (cons (string "payment-service") (cons (string "shipping-service") nil))))

abbrev pub killed_reply : String → ℕ → Dict
killed_reply service n = item "killed" (string service) (item "containers" (num n) empty)

module _ {W D C : Type 0} (docker : Docker W D C) (is_api_error : Error → Bool) where
  -- `except APIError: pass`
  abbrev pub suppress : Result ⊤ × W → Result ⊤ × W
  suppress (ok _, w) = (ok tt, w)
  suppress (err e, w) = (if is_api_error e then ok tt else err e, w)

  abbrev pub kill_all : List C → Action W ⊤
  kill_all [] = pure tt
  kill_all (c ∷ cs) = (λ w. suppress (docker.kill_container c "SIGKILL" w)) >> kill_all cs

  abbrev pub start_all : List C → Action W ⊤
  start_all [] = pure tt
  start_all (c ∷ cs) = docker.start c >> start_all cs

  abbrev pub restart : (project service : String) → Action W Dict
  restart project service = docker.from_env >>= λ client.
      docker.list_containers client project service >>= λ containers.
      kill_all containers
      >> (start_all containers >> pure (killed_reply service (length containers)))

  abbrev pub answered : (Error → String) → Result Dict × W → Dict × W
  answered str_error (ok reply, w) = (reply, w)
  answered str_error (err e, w) = (item "error" (string (str_error e)) empty, w)

  -- `kill`; the project is that of the environment.
  unfoldable pub kill : (Error → String) → (project service : String) → W → Dict × W
  kill str_error project service w =
      if elem service killable then answered str_error (restart project service w) else (
        item "error" (string (text_append "not killable: " service))
            (item "allowed" (arr allowed) empty),
        w,
      )
