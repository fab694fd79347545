-- ===== src/Services/Observer/Feed/Shown.antt =====
-- A connected socket of services/observer/app/api.py, step by step.
use mathlib.Core.List.{append_assoc}
use event_driven_demo.Base.{
  ℕ, ◌≡◌, ◌≢◌, refl, sym, ap, ◌∙◌, inl, inr, Bool, true, false, List, [], ◌∷◌, ◌++◌, Bool-cases,
  if◌then◌else◌,
}
use event_driven_demo.Pyevents.Effect.{Result, ok, err, ⊤, Action}
use event_driven_demo.Services.Observer.Feed.{
  Feed, member, add, discard, failed, broadcast, send_all, fan_out, run_first, replay, enter,
  accepted, leave,
}
use event_driven_demo.Services.Observer.Feed.Ring.{Step, seen, flush, join, quit, step}
use event_driven_demo.Services.Observer.Feed.Clients.{
  Sockets, IsUnique, discard-IsUnique, add-IsUnique, member-add, member-discard,
  discard_all-IsUnique, member-discard_all, alive, reached,
}

-- A step that is not about the socket.
abbrev pub Spares : {E : Type 0} → ℕ → Step E → Type 0
Spares k (join j) = j ≢ k
Spares k (quit j) = j ≢ k
Spares k _ = Unit

-- The socket is connected; `base` is what it has been sent and what is scheduled for it.
pub record Shown {E W : Type 0} (log : W → ℕ → List E) (k : ℕ) (base : List E) (s : Feed E W)
    : Type 0 where
  pub present : member k s.clients ≡ true
  pub once : IsUnique s.clients
  pub looping : s.has_loop ≡ true
  pub shown : log s.world k ++ s.scheduled ≡ base

module _ {E W : Type 0} (accept : ℕ → Action W ⊤) (send_json : ℕ → E → Action W ⊤)
    (log : W → ℕ → List E) (sockets : Sockets accept send_json log) (k : ℕ)
    (stays : (e : E) (w : W) → (send_json k e w).0 ≡ ok tt) where
  pub Shown-seen :
      (base : List E) (e : E) (s : Feed E W)
      → Shown log k base s
      → Shown log k (base ++ e ∷ []) (step accept send_json (seen e) s)
  unfolding step broadcast
  Shown-seen base e s h = rw h.looping (record {
    present = h.present;
    once = h.once;
    looping = refl;
    shown = sym (append_assoc (log s.world k) s.scheduled (e ∷ [])) ∙ ap (λ l. l ++ e ∷ []) h.shown;
  })

  pub Shown-flush :
      (base : List E) (s : Feed E W)
      → Shown log k base s
      → Shown log k base (step accept send_json flush s)
  unfolding step fan_out
  Shown-flush base s h = by_first s.scheduled refl
    where
      by_first :
          (es : List E) → s.scheduled ≡ es → Shown log k base (run_first accept send_json es s)
      by_first [] none = h
      by_first (e ∷ es) first = record {
        present =
            member-discard_all k (send_all accept send_json s.clients e s.world).0 s.clients
              (alive accept send_json log sockets k stays s.clients e s.world) h.present;
        once =
            discard_all-IsUnique (send_all accept send_json s.clients e s.world).0 s.clients h.once;
        looping = h.looping;
        shown =
            ap (λ l. l ++ es)
              (reached accept send_json log sockets k stays s.clients e s.world h.once h.present)
            ∙ append_assoc (log s.world k) (e ∷ []) es
            ∙ ap (λ l. log s.world k ++ l) (sym first)
            ∙ h.shown;
      }

  pub Shown-quit :
      (base : List E) (j : ℕ) (s : Feed E W)
      → j ≢ k
      → Shown log k base s
      → Shown log k base (step accept send_json (quit j) s)
  unfolding step leave
  Shown-quit base j s ne h = record {
    present = member-discard j k s.clients ne ∙ h.present;
    once = discard-IsUnique j s.clients h.once;
    looping = h.looping;
    shown = h.shown;
  }

  -- What another socket's replay does to this one: nothing.
  replay_apart :
      (items : List E) (j : ℕ) (w : W)
      → j ≢ k
      → log (replay accept send_json items j w).1 k ≡ log w k
  replay_apart [] j w ne = refl
  replay_apart (e ∷ items) j w ne = elim (Bool-cases (failed (send_json j e w).0)) [
    | inl gone ↦ rw gone (sockets.apart j k e w (λ same. ne (sym same)))
    | inr fine ↦ rw fine (
        replay_apart items j (send_json j e w).1 ne ∙ sockets.apart j k e w (λ same. ne (sym same)))
  ]

  pub Shown-join :
      (base : List E) (j : ℕ) (s : Feed E W)
      → j ≢ k
      → Shown log k base s
      → Shown log k base (step accept send_json (join j) s)
  unfolding step enter
  Shown-join base j s ne h = by_result (accept j s.world) (sockets.accepts j k s.world)
    where
      given_up :
          (gone : Bool) (w : W)
          → log w k ≡ log s.world k
          → Shown log k base (record s {
            clients = if gone then discard j (add j s.clients) else add j s.clients;
            world = w;
          })
      given_up true w same = record {
        present = member-discard j k (add j s.clients) ne ∙ member-add j k s.clients h.present;
        once = discard-IsUnique j (add j s.clients) (add-IsUnique j s.clients h.once);
        looping = h.looping;
        shown = ap (λ l. l ++ s.scheduled) same ∙ h.shown;
      }
      given_up false w same = record {
        present = member-add j k s.clients h.present;
        once = add-IsUnique j s.clients h.once;
        looping = h.looping;
        shown = ap (λ l. l ++ s.scheduled) same ∙ h.shown;
      }

      by_result :
          (y : Result ⊤ × W)
          → log y.1 k ≡ log s.world k
          → Shown log k base (accepted accept send_json j s y)
      by_result (err e, w) same = record {
        present = h.present;
        once = h.once;
        looping = h.looping;
        shown = ap (λ l. l ++ s.scheduled) same ∙ h.shown;
      }
      by_result (ok _, w) same =
          given_up (failed (replay accept send_json s.recent j w).0)
            (replay accept send_json s.recent j w).1 (replay_apart s.recent j w ne ∙ same)
