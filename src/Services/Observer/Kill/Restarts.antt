-- ===== src/Services/Observer/Kill/Restarts.antt =====
-- What `POST /kill` does to the containers.
use mathlib.Core.List.{append-nil, append_assoc}
use event_driven_demo.Base.{
  map, ◌++◌, ◌≡◌, refl, ◌∙◌, ap, ◌⊎◌, inl, inr, String, Bool, true, List, [], ◌∷◌, elem, length,
  All, subst, sym,
}
use event_driven_demo.Pyevents.Effect.{
  Error, Result, ok, err, ⊤, Action, pure, ◌>>=◌, ◌>>◌, bind_ok,
}
use event_driven_demo.Services.Observer.Kill.{
  Docker, killable, killed_reply, kill_all, start_all, restart, kill, suppress,
}

-- What Docker is asked to do to a container.
pub data Order (C : Type 0) : Type 0 where
  sigkill boot : C → Order C

-- Docker, where it answers and notes in `log` what it is asked: the client opens and lists, as the containers of one service, `cs`; a kill
-- returns, or raises an APIError where the container does not run; a start returns, and the container
-- then runs; and a call of one container leaves the others as they are.
pub record Answers {W D C : Type 0} (docker : Docker W D C) (is_api_error : Error → Bool)
    (running : C → W → Bool) (log : W → List (Order C)) (project service : String) (cs : List C)
    : Type 0 where
  pub opens : (w : W) → (d : D) × (docker.from_env w ≡ (ok d, w))
  pub lists : (d : D) (w : W) → docker.list_containers d project service w ≡ (ok cs, w)
  pub kills :
      (c : C) (w : W)
      → ((docker.kill_container c "SIGKILL" w).0 ≡ ok tt)
        ⊎ ((e : Error) × ((docker.kill_container c "SIGKILL" w).0 ≡ err e)
            × (is_api_error e ≡ true))
  pub starts :
      (c : C) (w : W) → ((docker.start c w).0 ≡ ok tt) × (running c (docker.start c w).1 ≡ true)
  pub stays : (c d : C) (w : W) → running d w ≡ true → running d (docker.start c w).1 ≡ true
  pub apart_kill :
      (c d : C) (w : W)
      → ¬ (c ≡ d)
      → running d (docker.kill_container c "SIGKILL" w).1 ≡ running d w
  pub apart_start : (c d : C) (w : W) → ¬ (c ≡ d) → running d (docker.start c w).1 ≡ running d w
  pub logs_kill :
      (c : C) (w : W) → log (docker.kill_container c "SIGKILL" w).1 ≡ log w ++ sigkill c ∷ []
  pub logs_start : (c : C) (w : W) → log (docker.start c w).1 ≡ log w ++ boot c ∷ []

bind_at :
    {W A B : Type 0} (m : Action W A) (k : A → Action W B) (w : W) (a : A) (w' : W)
    → m w ≡ (ok a, w')
    → (m >>= k) w ≡ k a w'
bind_at m k w a w' h = bind_ok m k w a (ap (λ z. z.0) h) ∙ ap (λ z. k a z.1) h

module _ {W D C : Type 0} (docker : Docker W D C) (is_api_error : Error → Bool)
    (running : C → W → Bool) (log : W → List (Order C)) (project service : String) (cs : List C)
    (answers : Answers docker is_api_error running log project service cs) where
  -- A kill returns.
  one_kill :
      (c : C) (w : W)
      → suppress docker is_api_error (docker.kill_container c "SIGKILL" w)
        ≡ (ok tt, (docker.kill_container c "SIGKILL" w).1)
  one_kill c w = by_result (docker.kill_container c "SIGKILL" w) (answers.kills c w)
    where
      by_result :
          (y : Result ⊤ × W)
          → (y.0 ≡ ok tt) ⊎ ((e : Error) × (y.0 ≡ err e) × (is_api_error e ≡ true))
          → suppress docker is_api_error y ≡ (ok tt, y.1)
      by_result (ok _, w') a = refl
      by_result (err f, w') (inl a) = cc
      by_result (err f, w') (inr (g, a, b)) =
          let api : is_api_error f ≡ true = cc (a, b) in rw api refl

  kill_first :
      (k : C) (ks : List C) (w : W)
      → kill_all docker is_api_error (k ∷ ks) w
        ≡ kill_all docker is_api_error ks (docker.kill_container k "SIGKILL" w).1
  kill_first k ks w =
      bind_at (λ w'. suppress docker is_api_error (docker.kill_container k "SIGKILL" w'))
        (λ _. kill_all docker is_api_error ks) w tt (docker.kill_container k "SIGKILL" w).1
        (one_kill k w)

  -- The kills return.
  kill_all_ok : (ks : List C) (w : W) → (kill_all docker is_api_error ks w).0 ≡ ok tt
  kill_all_ok [] w = refl
  kill_all_ok (k ∷ ks) w =
      ap (λ z. z.0) (kill_first k ks w) ∙ kill_all_ok ks (docker.kill_container k "SIGKILL" w).1

  kill_all_apart :
      (ks : List C) (w : W) (d : C)
      → All (λ c. ¬ (c ≡ d)) ks
      → running d (kill_all docker is_api_error ks w).1 ≡ running d w
  kill_all_apart [] w d h = refl
  kill_all_apart (k ∷ ks) w d (ne, h) =
      ap (λ z. running d z.1) (kill_first k ks w)
      ∙ kill_all_apart ks (docker.kill_container k "SIGKILL" w).1 d h
      ∙ answers.apart_kill k d w ne

  started :
      (ks : List C) (w : W) (c : C)
      → running c w ≡ true
      → running c (start_all docker is_api_error ks w).1 ≡ true
  started [] w c h = h
  started (k ∷ ks) w c h =
      rw
        (bind_ok (docker.start k) (λ _. start_all docker is_api_error ks) w tt
          (answers.starts k w).0)
        (started ks (docker.start k w).1 c (answers.stays k c w h))

  -- The starts return, and all that is started runs.
  start_all_ok :
      (ks : List C) (w : W)
      → ((start_all docker is_api_error ks w).0 ≡ ok tt)
        × All (λ c. running c (start_all docker is_api_error ks w).1 ≡ true) ks
  start_all_ok [] w = (refl, tt)
  start_all_ok (k ∷ ks) w =
      let w' = (docker.start k w).1 in
      let (p, q) = start_all_ok ks w' in
      subst (λ z. (z.0 ≡ ok tt) × ((running k z.1 ≡ true) × All (λ c. running c z.1 ≡ true) ks))
        (sym (
          bind_ok (docker.start k) (λ _. start_all docker is_api_error ks) w tt
            (answers.starts k w).0))
        (p, (started ks w' k (answers.starts k w).1, q))

  start_all_apart :
      (ks : List C) (w : W) (d : C)
      → All (λ c. ¬ (c ≡ d)) ks
      → running d (start_all docker is_api_error ks w).1 ≡ running d w
  start_all_apart [] w d h = refl
  start_all_apart (k ∷ ks) w d (ne, h) =
      rw
        (bind_ok (docker.start k) (λ _. start_all docker is_api_error ks) w tt
          (answers.starts k w).0)
        (start_all_apart ks (docker.start k w).1 d h ∙ answers.apart_start k d w ne)

  log-kill_all :
      (ks : List C) (w : W) → log (kill_all docker is_api_error ks w).1 ≡ log w ++ map sigkill ks
  log-kill_all [] w = sym (append-nil (log w))
  log-kill_all (k ∷ ks) w =
      ap (λ z. log z.1) (kill_first k ks w)
      ∙ log-kill_all ks (docker.kill_container k "SIGKILL" w).1
      ∙ ap (λ l. l ++ map sigkill ks) (answers.logs_kill k w)
      ∙ append_assoc (log w) (sigkill k ∷ []) (map sigkill ks)

  log-start_all :
      (ks : List C) (w : W) → log (start_all docker is_api_error ks w).1 ≡ log w ++ map boot ks
  log-start_all [] w = sym (append-nil (log w))
  log-start_all (k ∷ ks) w =
      ap (λ z. log z.1)
        (bind_ok (docker.start k) (λ _. start_all docker is_api_error ks) w tt
          (answers.starts k w).0)
      ∙ log-start_all ks (docker.start k w).1
      ∙ ap (λ l. l ++ map boot ks) (answers.logs_start k w)
      ∙ append_assoc (log w) (boot k ∷ []) (map boot ks)

  -- The two loops and the reply.
  restart_ok :
      (w : W)
      → restart docker is_api_error project service w ≡ (
        ok (killed_reply service (length cs)),
        (start_all docker is_api_error cs (kill_all docker is_api_error cs w).1).1,
      )
  restart_ok w =
      let (d, opened) = answers.opens w in
      let w' = (kill_all docker is_api_error cs w).1 in
      let reply = killed_reply service (length cs) in
      let starts = start_all docker is_api_error cs in
      bind_at docker.from_env
        (λ client. docker.list_containers client project service >>= λ ks.
          kill_all docker is_api_error ks
          >> (start_all docker is_api_error ks >> pure (killed_reply service (length ks))))
        w d w opened
      ∙ bind_at (docker.list_containers d project service)
          (λ ks.
            kill_all docker is_api_error ks
            >> (start_all docker is_api_error ks >> pure (killed_reply service (length ks))))
          w cs w (answers.lists d w)
      ∙ bind_ok (kill_all docker is_api_error cs) (λ _. starts >> pure reply) w tt
          (kill_all_ok cs w)
      ∙ bind_ok starts (λ _. pure reply) w' tt (start_all_ok cs w').0

  -- `POST /kill` of a service that may be killed answers with the number of its containers; it sends
  -- SIGKILL to each of them once and only then starts each of them once, and asks nothing else of
  -- Docker; all of them run when it answers, also those that did not run before, and a container of
  -- another service runs or does not run as before; while Docker answers.
  pub kill_restarts :
      (str_error : Error → String) (w : W) (other : C)
      → elem service killable ≡ true
      → All (λ c. ¬ (c ≡ other)) cs
      → let (reply, w') = kill docker is_api_error str_error project service w in
        (reply ≡ killed_reply service (length cs))
        × (log w' ≡ log w ++ (map sigkill cs ++ map boot cs))
        × All (λ c. running c w' ≡ true) cs
        × (running other w' ≡ running other w)
  unfolding kill
  kill_restarts str_error w other may h =
      let w' = (kill_all docker is_api_error cs w).1 in
      rw (may, restart_ok w)
        (
          refl,
          log-start_all cs w'
              ∙ ap (λ l. l ++ map boot cs) (log-kill_all cs w)
              ∙ append_assoc (log w) (map sigkill cs) (map boot cs),
          (start_all_ok cs w').1,
          start_all_apart cs w' other h ∙ kill_all_apart cs w other h,
        )
