-- ===== src/Services/Observer/Feed/Live.antt =====
-- What a dashboard that stays connected to services/observer/app/api.py is sent.
use mathlib.Core.List.{append-nil, append_assoc}
use event_driven_demo.Base.{ℕ, ◌≡◌, refl, sym, ap, subst, ◌∙◌, true, List, [], ◌∷◌, ◌++◌, All}
use event_driven_demo.Pyevents.Effect.{Result, ok, err, ⊤, Action}
use event_driven_demo.Services.Observer.Feed.{Feed, failed, replay, enter, accepted}
use event_driven_demo.Services.Observer.Feed.Ring.{
  Step, seen, flush, join, quit, messages, step, run,
}
use event_driven_demo.Services.Observer.Feed.Clients.{Sockets, IsUnique, add-IsUnique, member-added}
use event_driven_demo.Services.Observer.Feed.Shown.{
  Spares, Shown, Shown-seen, Shown-flush, Shown-quit, Shown-join,
}

module _ {E W : Type 0} (accept : ℕ → Action W ⊤) (send_json : ℕ → E → Action W ⊤)
    (log : W → ℕ → List E) (sockets : Sockets accept send_json log) (k : ℕ)
    (stays : (e : E) (w : W) → (send_json k e w).0 ≡ ok tt) where
  Shown-run :
      (steps : List (Step E)) (base : List E) (s : Feed E W)
      → All (Spares k) steps
      → Shown log k base s
      → Shown log k (base ++ messages steps) (run accept send_json steps s)
  Shown-run [] base s spares h = subst (λ b. Shown log k b s) (sym (append-nil base)) h
  Shown-run (seen e ∷ steps) base s (_, spares) h =
      let next = step accept send_json (seen e) s in
      subst (λ b. Shown log k b (run accept send_json steps next))
        (append_assoc base (e ∷ []) (messages steps))
        (Shown-run steps (base ++ e ∷ []) next spares
          (Shown-seen accept send_json log sockets k stays base e s h))
  Shown-run (flush ∷ steps) base s (_, spares) h =
      Shown-run steps base (step accept send_json flush s) spares
        (Shown-flush accept send_json log sockets k stays base s h)
  Shown-run (join j ∷ steps) base s (ne, spares) h =
      Shown-run steps base (step accept send_json (join j) s) spares
        (Shown-join accept send_json log sockets k stays base j s ne h)
  Shown-run (quit j ∷ steps) base s (ne, spares) h =
      Shown-run steps base (step accept send_json (quit j) s) spares
        (Shown-quit accept send_json log sockets k stays base j s ne h)

  replayed_all :
      (items : List E) (w : W)
      → ((replay accept send_json items k w).0 ≡ ok tt)
        × (log (replay accept send_json items k w).1 k ≡ log w k ++ items)
  replayed_all [] w = (refl, sym (append-nil (log w k)))
  replayed_all (e ∷ items) w =
      let (returned, logged) = replayed_all items (send_json k e w).1 in
      rw (ap failed (stays e w)) (
        returned,
        logged
            ∙ ap (λ l. l ++ items) (sockets.delivers k e w (stays e w))
            ∙ append_assoc (log w k) (e ∷ []) items,
      )

  Shown-entered :
      (s : Feed E W) (y : Result ⊤ × W)
      → y.0 ≡ ok tt
      → log y.1 k ≡ log s.world k
      → IsUnique s.clients
      → s.has_loop ≡ true
      → Shown log k (log s.world k ++ (s.recent ++ s.scheduled)) (accepted accept send_json k s y)
  Shown-entered s (err e, w) h same once looping = cc
  Shown-entered s (ok _, w) h same once looping =
      let (returned, logged) = replayed_all s.recent w in
      rw (ap failed returned) (record {
        present = member-added k s.clients;
        once = add-IsUnique k s.clients once;
        looping = looping;
        shown =
            ap (λ l. l ++ s.scheduled) (logged ∙ ap (λ l. l ++ s.recent) same)
            ∙ append_assoc (log s.world k) s.recent s.scheduled;
      })

  -- A socket that is accepted and stays connected, and whose sends return, is sent the messages of the
  -- ring buffer, then those that were waiting for the loop when it came, and then every message that the
  -- observer sees, in this order; at any time all of them but those that still wait for the loop.
  -- No coroutine of the server starts before another one has ended.
  pub socket_follows :
      (s : Feed E W) (steps : List (Step E))
      → (accept k s.world).0 ≡ ok tt
      → IsUnique s.clients
      → s.has_loop ≡ true
      → All (Spares k) steps
      → let t = run accept send_json steps (step accept send_json (join k) s) in
        log t.world k ++ t.scheduled
        ≡ (log s.world k ++ (s.recent ++ s.scheduled)) ++ messages steps
  unfolding step enter
  socket_follows s steps welcome once looping spares =
      (Shown-run steps _ (step accept send_json (join k) s) spares (
        Shown-entered s (accept k s.world) welcome (sockets.accepts k k s.world) once
          looping)).shown
