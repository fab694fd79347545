-- ===== src/Pyevents/Outbox/Resends.antt =====
-- What the relay of libs/pyevents/pyevents/outbox.py sends again, to a consumer behind the guard of db.py.
use mathlib.Core.List.{append_assoc}
use event_driven_demo.Base.{
  ℕ, ◌≡◌, refl, sym, ap, subst, ◌∙◌, String, Bool, true, false, List, [], ◌∷◌, ◌++◌, take,
  if◌then◌else◌,
}
use event_driven_demo.Pyevents.Json.{Json, Dict}
use event_driven_demo.Pyevents.Effect.{key_error, amqp_error, Result, ok, err, ⊤, Action}
use event_driven_demo.Pyevents.Db.{OutboxRow, Store, Conn}
use event_driven_demo.Pyevents.Db.Once.{deliver_all}
use event_driven_demo.Pyevents.Publisher.{Sent, sent_of}
use event_driven_demo.Pyevents.Publisher.Delivers.{copies}
use event_driven_demo.Pyevents.Outbox.{recover}
use event_driven_demo.Pyevents.Outbox.Rows.{drop, take-drop}
use event_driven_demo.Pyevents.Outbox.Relay.{messages}
use event_driven_demo.Pyevents.Outbox.Drains.{messages-append}
use event_driven_demo.Pyevents.Outbox.Effects.{Same, Same-append, Same-resent, Same-doubled}

module _ {S C : Type 0} (dumps : Dict → String) (repr : Json → String)
    (basic_publish : Sent → Action C ⊤) (m : Bool) (exchange : String)
    (open_channel : Action C ⊤) where
  pub recover_committed :
      (y : Result ℕ × (Conn (Store S) × C))
      → (recover dumps repr basic_publish m exchange open_channel y).1.0.committed ≡ y.1.0.committed
  recover_committed (ok n, x) = refl
  recover_committed (err key_error, x) = refl
  recover_committed (err amqp_error, (c, ch)) = refl
  recover_committed (err e, x) = refl

  pub recover_log :
      (log : C → List Sent)
      → ((ch : C) → log (open_channel ch).1 ≡ log ch)
      → (y : Result ℕ × (Conn (Store S) × C))
      → log (recover dumps repr basic_publish m exchange open_channel y).1.1 ≡ log y.1.1
  recover_log log quiet (ok n, x) = refl
  recover_log log quiet (err key_error, x) = refl
  recover_log log quiet (err amqp_error, (c, ch)) = quiet ch
  recover_log log quiet (err e, x) = refl

module _ {T : Type 0} (key : Sent → String) (work : Sent → Action (Store T) ⊤)
    (keeps : (m : Sent) (e : Store T) → (work m e).1.processed ≡ e.processed)
    (total : (m : Sent) (e : Store T) → (work m e).0 ≡ ok tt) (dumps : Dict → String)
    (repr : Json → String) (exchange : String) where
  copies-Same : (m : Bool) (x : Sent) → Same key work (copies (if m then 2 else 1) x) (x ∷ [])
  copies-Same true x = Same-doubled key work keeps total x
  copies-Same false x = λ e. refl

  -- The duplicate mode makes no difference.
  messages-Same :
      (m : Bool) (rs : List OutboxRow)
      → Same key work (messages dumps repr m exchange rs) (messages dumps repr false exchange rs)
  messages-Same m [] = λ e. refl
  messages-Same m (r ∷ rs) =
      let x = sent_of dumps repr exchange r.routing_key r.body in
      Same-append key work (copies (if m then 2 else 1) x) (x ∷ [])
        (messages dumps repr m exchange rs) (messages dumps repr false exchange rs)
        (copies-Same m x) (messages-Same m rs)

  -- The batch and what is left of the rows.
  pub batch-Same :
      (m : Bool) (b : ℕ) (u : List OutboxRow)
      → Same key work
          (messages dumps repr m exchange (take b u)
            ++ messages dumps repr false exchange (drop b u))
          (messages dumps repr false exchange u)
  batch-Same m b u e =
      Same-append key work (messages dumps repr m exchange (take b u))
        (messages dumps repr false exchange (take b u)) _ _ (messages-Same m (take b u)) (λ _. refl)
        e
      ∙ ap (λ l. deliver_all key work l e)
          (sym (messages-append dumps repr false exchange (take b u) (drop b u))
            ∙ ap (messages dumps repr false exchange) (sym (take-drop b u)))

  -- A beginning of the batch, and then all the rows.
  pub again-Same :
      (m : Bool) (b : ℕ) (u : List OutboxRow) (done left : List Sent)
      → messages dumps repr m exchange (take b u) ≡ done ++ left
      → Same key work
          (done ++ messages dumps repr false exchange u)
          (messages dumps repr false exchange u)
  again-Same m b u done left split e =
      let rest = messages dumps repr false exchange (drop b u) in
      let all = messages dumps repr false exchange u in
      let whole : Same key work ((done ++ left) ++ rest) all =
        subst (λ l. Same key work (l ++ rest) all) split (batch-Same m b u) in
      Same-append key work done done all ((done ++ left) ++ rest) (λ _. refl) (λ d. sym (whole d)) e
      ∙ ap (λ l. deliver_all key work l e) (sym (append_assoc done (done ++ left) rest))
      ∙ Same-append key work (done ++ (done ++ left)) (done ++ left) rest rest
          (Same-resent key work keeps total done left) (λ _. refl) e
      ∙ whole e
