-- ===== src/Services/Orchestrator/Turns.antt =====
-- What an action of services/orchestrator/app/__main__.py does to one order: a rule for each
-- statement and one for the sequence.
use event_driven_demo.Base.{
  ℕ, ◌≡◌, refl, ◌≢◌, ◌∙◌, ◌≡⟨◌⟩◌, ◌∎, ap, String, Option, some, List, [], ◌∷◌, ◌++◌, map, arith,
  ==_refl, ==_ne, sym,
}
use event_driven_demo.Base.Int.{ℤ}
use event_driven_demo.Base.Table.{find, find-update, IsKeyed, update-IsKeyed}
use event_driven_demo.Pyevents.Json.{Json, num, Dict, get}
use event_driven_demo.Pyevents.Effect.{ok, ⊤, Action, pure, ◌>>◌}
use event_driven_demo.Pyevents.Db.{OutboxRow}
use event_driven_demo.Pyevents.Saga.{
  SagaState, Step, Saga, LogKind, Orch, log, set_state, state_row,
}
use event_driven_demo.Services.Orchestrator.{emit}
use mathlib.Core.List.{map-append, append_assoc, append-nil}

-- A message as its receivers route it: the routing key, and the order in the body.
abbrev pub addressed : OutboxRow → String × Option Json
addressed row = (row.routing_key, get "order_id" row.body)

abbrev pub sent : Orch → List (String × Option Json)
sent d = map addressed d.outbox

-- The messages with these routing keys, for one order.
abbrev pub about : ℕ → List String → List (String × Option Json)
about o rks = map (λ rk. (rk, some (num o))) rks

-- From `d` the database came to `d'`: order `o` has the row `s`, the messages `out` were staged for
-- it, and nothing else changed that another order or the guard could see.
pub record Turned (o : ℕ) (d : Orch) (s : Saga) (out : List String) (d' : Orch) : Type 0 where
  pub row : find o d'.tables.sagas ≡ some s
  pub others : (j : ℕ) → j ≢ o → find j d'.tables.sagas ≡ find j d.tables.sagas
  pub sends : sent d' ≡ sent d ++ about o out
  pub keeps : d'.processed ≡ d.processed
  pub keyed : IsKeyed d.tables.sagas → IsKeyed d'.tables.sagas

-- The action `m` takes the row `s` of order `o` to `s'` and sends `out`.
abbrev pub Turns : ℕ → Saga → Action Orch ⊤ → Saga → List String → Type 0
Turns o s m s' out =
    (d : Orch) → find o d.tables.sagas ≡ some s → ((m d).0 ≡ ok tt) × Turned o d s' out (m d).1

module _ (o : ℕ) (s : Saga) where
  pub Turns-pure : Turns o s (pure tt) s []
  Turns-pure d h = (
    refl,
    record {
      row = h;
      others = λ j ne. refl;
      sends = sym (append-nil _);
      keeps = refl;
      keyed = λ k. k;
    },
  )

  pub Turns-log : (now : ℕ) (k : LogKind) (t : String) → Turns o s (log now o k t) s []
  unfolding log
  Turns-log now k t d h = (
    refl,
    record {
      row = h;
      others = λ j ne. refl;
      sends = sym (append-nil _);
      keeps = refl;
      keyed = λ k. k;
    },
  )

  pub Turns-emit :
      (now : ℕ) (rk : String) (body : Dict) (suffix : String)
      → Turns o s (emit now o rk body suffix) s (rk ∷ [])
  unfolding emit
  Turns-emit now rk body suffix d h = (
    refl,
    record {
      row = h;
      others = λ j ne. refl;
      sends = map-append addressed d.outbox _;
      keeps = refl;
      keyed = λ k. k;
    },
  )

  pub Turns-set_state :
      (now : ℕ) (to : SagaState) (awaiting : Option Step) (pending : Option ℤ)
      → Turns o s (set_state now o to awaiting pending) (state_row now to awaiting pending s) []
  unfolding set_state
  Turns-set_state now to awaiting pending d h =
      let f = state_row now to awaiting pending in
      (
        refl,
        record {
          row = rw find-update (rw (==_refl o) (rw h));
          others = λ j ne. rw find-update (rw (==_ne o j (λ e. ne (sym e))));
          sends = sym (append-nil _);
          keeps = refl;
          keyed = update-IsKeyed o f d.tables.sagas;
        },
      )

pub >>-ok : {D : Type 0} (m k : Action D ⊤) (d : D) → (m d).0 ≡ ok tt → (m >> k) d ≡ k (m d).1
>>-ok m k d h = ground arith

pub Turned-trans :
    {o : ℕ} {d e f : Orch} {t u : Saga} (xs ys : List String)
    → Turned o d t xs e
    → Turned o e u ys f
    → Turned o d u (xs ++ ys) f
Turned-trans {o} {d} {e} {f} xs ys a b = record {
  row = b.row;
  others = λ j ne. b.others j ne ∙ a.others j ne;
  sends =
      sent f
      ≡⟨ b.sends ⟩ sent e ++ about o ys
      ≡⟨ ap (λ l. l ++ about o ys) a.sends ⟩ (sent d ++ about o xs) ++ about o ys
      ≡⟨ append_assoc (sent d) (about o xs) (about o ys) ⟩ sent d ++ (about o xs ++ about o ys)
      ≡⟨ ap (λ l. sent d ++ l) (sym (map-append _ xs ys)) ⟩ sent d ++ about o (xs ++ ys) ∎;
  keeps = b.keeps ∙ a.keeps;
  keyed = λ k. b.keyed (a.keyed k);
}

-- Two actions in sequence.
pub Turns-seq :
    {o : ℕ} {s t u : Saga} (m k : Action Orch ⊤) (xs ys : List String)
    → Turns o s m t xs
    → Turns o t k u ys
    → Turns o s (m >> k) u (xs ++ ys)
Turns-seq m k xs ys hm hk d h =
    let a = hm d h in
    let b = hk (m d).1 a.1.row in rw (>>-ok m k d a.0) (b.0, Turned-trans xs ys a.1 b.1)
