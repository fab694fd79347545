-- ===== src/Pyevents/Outbox/Drains.antt =====
-- The relay of libs/pyevents/pyevents/outbox.py empties an outbox while the broker accepts what it publishes.
use mathlib.Core.List.{append-nil, append_assoc}
use event_driven_demo.Base.{
  ℕ, zero, suc, ◌≤◌, ◌≡◌, refl, sym, ap, subst, ◌∙◌, inl, inr, String, Bool, false, List, [], ◌∷◌,
  ◌++◌, take, length, arith, if◌then◌else◌,
}
use event_driven_demo.Pyevents.Json.{Json, Dict}
use event_driven_demo.Pyevents.Effect.{Result, ok, err, ⊤, Action, ◌>>◌}
use event_driven_demo.Pyevents.Db.{OutboxRow, Store, Conn, idle}
use event_driven_demo.Pyevents.Publisher.{Sent, sent_of, repeat, publish}
use event_driven_demo.Pyevents.Outbox.{
  on_channel, on_db, set_published, unpublished, publish_rows, drained, send_batch, drain_once,
  recover, relay_turn,
}
use event_driven_demo.Pyevents.Publisher.Delivers.{Delivers, copies}
use event_driven_demo.Pyevents.Outbox.Rows.{drop, take-drop, Distinct}
use event_driven_demo.Pyevents.Outbox.Relay.{messages, drain_once-Drained}

nothing_left : {A : Type 0} (xs : List A) → length xs ≤ 0 → xs ≡ []
nothing_left [] h = refl
nothing_left (x ∷ xs) h = absurd (omega (arith, h))

length-drop :
    {A : Type 0} (b n : ℕ) (xs : List A) → length xs ≤ suc n → length (drop (suc b) xs) ≤ n
length-drop b n [] h = omega arith
length-drop b n (x ∷ xs) h = no_more b xs (omega (arith, h))
  where
    no_more : {A : Type 0} (b : ℕ) (xs : List A) → length xs ≤ n → length (drop b xs) ≤ n
    no_more zero xs h = h
    no_more (suc b) [] h = omega arith
    no_more (suc b) (x ∷ xs) h = no_more b xs (omega (arith, h))

module _ (dumps : Dict → String) (repr : Json → String) (duplicate_mode : Bool)
    (exchange : String) where
  pub messages-append :
      (xs ys : List OutboxRow)
      → messages dumps repr duplicate_mode exchange (xs ++ ys)
        ≡ messages dumps repr duplicate_mode exchange xs
          ++ messages dumps repr duplicate_mode exchange ys
  messages-append [] ys = refl
  messages-append (x ∷ xs) ys = rw (messages-append xs ys) (
      sym (
        append_assoc
          (copies (if duplicate_mode then 2 else 1)
            (sent_of dumps repr exchange x.routing_key x.body))
          _ _))

-- What has happened after the turns: no unpublished row is left, and their messages have been sent.
abbrev pub Emptied :
    {S C : Type 0}
    → (ℕ → Bool)
    → (C → List Sent)
    → (List OutboxRow → List Sent)
    → Store S
    → C
    → Store S × C
    → Type 0
Emptied locked log all d ch (d', ch') =
    (unpublished locked d'.outbox ≡ []) × (log ch' ≡ log ch ++ all (unpublished locked d.outbox))

module _ {X : Type 0} where
  ok_after :
      (k : Action X ⊤) (y : Result ⊤ × X)
      → y.0 ≡ ok tt
      → (k y.1).0 ≡ ok tt
      → (((λ _. y) >> k) y.1).0 ≡ ok tt
  ok_after k (ok _, x) p q = q
  ok_after k (err e, x) p q = cc

  ok_then :
      (m k : Action X ⊤) (x : X) → (m x).0 ≡ ok tt → (k (m x).1).0 ≡ ok tt → ((m >> k) x).0 ≡ ok tt
  ok_then m k x p q = ok_after k (m x) p q

module _ {S C : Type 0} (dumps : Dict → String) (repr : Json → String)
    (basic_publish : Sent → Action C ⊤) (duplicate_mode : Bool) (exchange : String)
    (open_channel : Action C ⊤) (locked : ℕ → Bool) (batch : ℕ) where
  -- Turns of the relay's loop; nothing else is staged meanwhile.
  unfoldable pub turns : ℕ → Store S → C → Store S × C
  turns zero d ch = (d, ch)
  turns (suc n) d ch =
      let (r, (c, ch')) =
        relay_turn dumps repr basic_publish duplicate_mode exchange open_channel false locked batch
          (idle d) ch in
      turns n c.committed ch'

module _ {C : Type 0} (dumps : Dict → String) (repr : Json → String)
    (basic_publish : Sent → Action C ⊤)
    (accepts : (m : Sent) (ch : C) → (basic_publish m ch).0 ≡ ok tt) (duplicate_mode : Bool)
    (exchange : String) where
  repeat_accepts : (n : ℕ) (m : Sent) (ch : C) → (repeat dumps repr basic_publish n m ch).0 ≡ ok tt
  unfolding repeat
  repeat_accepts zero m ch = refl
  repeat_accepts (suc n) m ch =
      ok_then (basic_publish m) (repeat dumps repr basic_publish n m) ch (accepts m ch)
        (repeat_accepts n m (basic_publish m ch).1)

  publish_rows_accepts :
      {S : Type 0} (rs : List OutboxRow) (x : Store S × C)
      → (publish_rows dumps repr basic_publish duplicate_mode exchange rs x).0 ≡ ok tt
  unfolding publish_rows publish
  publish_rows_accepts [] x = refl
  publish_rows_accepts (r ∷ rs) (d, ch) =
      ok_then
        (on_channel (publish dumps repr basic_publish duplicate_mode exchange r.routing_key r.body))
        (on_db (set_published r.id)
          >> publish_rows dumps repr basic_publish duplicate_mode exchange rs)
        (d, ch)
        (repeat_accepts (if duplicate_mode then 2 else 1)
          (sent_of dumps repr exchange r.routing_key r.body) ch)
        (publish_rows_accepts rs (set_published r.id d, _))

  drained_ok :
      {S : Type 0} (n : ℕ) (c : Conn (Store S)) (y : Result ⊤ × (Store S × C))
      → y.0 ≡ ok tt
      → (drained dumps repr basic_publish duplicate_mode exchange n c y).0 ≡ ok n
  drained_ok n c (ok _, x) h = refl
  drained_ok n c (err e, x) h = cc

  send_batch_ok :
      {S : Type 0} (rows : List OutboxRow) (d : Store S) (ch : C)
      → (send_batch dumps repr basic_publish duplicate_mode exchange rows (idle d) ch).0
        ≡ ok (length rows)
  send_batch_ok [] d ch = refl
  send_batch_ok (r ∷ rs) d ch = drained_ok _ (idle d) _ (publish_rows_accepts (r ∷ rs) (d, ch))

  recover_ok :
      {S : Type 0} (open_channel : Action C ⊤) (n : ℕ) (y : Result ℕ × (Conn (Store S) × C))
      → y.0 ≡ ok n
      → recover dumps repr basic_publish duplicate_mode exchange open_channel y ≡ (ok tt, y.1)
  recover_ok open_channel n (ok k, x) h = refl
  recover_ok open_channel n (err e, x) h = cc

  module _ (log : C → List Sent)
      (logs : (m : Sent) (ch : C) → Delivers log (m ∷ []) ch (basic_publish m ch))
      (open_channel : Action C ⊤) (locked : ℕ → Bool) (b : ℕ) where
    drain_once_ok :
        {S : Type 0} (d : Store S) (ch : C)
        → (drain_once dumps repr basic_publish duplicate_mode exchange locked (suc b) (idle d) ch).0
          ≡ ok (length (take (suc b) (unpublished locked d.outbox)))
    unfolding drain_once
    drain_once_ok d ch = send_batch_ok (take (suc b) (unpublished locked d.outbox)) d ch

    -- Not paused, on an outbox whose ids are distinct and a broker that accepts and sends once whatever
    -- it is given, as many turns as there are unpublished rows empty the outbox of rows that no other
    -- relay holds, and publish exactly their messages in the order of the ids.
    pub turns-Emptied :
        {S : Type 0} (n : ℕ) (d : Store S) (ch : C)
        → Distinct d.outbox
        → length (unpublished locked d.outbox) ≤ n
        → Emptied locked log (messages dumps repr duplicate_mode exchange) d ch (
            turns dumps repr basic_publish duplicate_mode exchange open_channel locked
              (suc b)
              n
              d
              ch)
    unfolding turns relay_turn
    turns-Emptied zero d ch h few =
        let e = nothing_left (unpublished locked d.outbox) few in
        (e, rw e (sym (append-nil (log ch))))
    turns-Emptied (suc n) d ch h few =
        let y =
          drain_once dumps repr basic_publish duplicate_mode exchange locked (suc b) (idle d) ch in
        let u = unpublished locked d.outbox in
        let all = messages dumps repr duplicate_mode exchange in
        let (closed, distinct, ended) =
          drain_once-Drained dumps repr basic_publish duplicate_mode exchange log logs locked
            (suc b) d ch h in
        subst
          (λ z. Emptied locked log (messages dumps repr duplicate_mode exchange) d ch (
            turns dumps repr basic_publish duplicate_mode exchange open_channel locked (suc b) n
              z.1.0.committed z.1.1))
          (sym (recover_ok open_channel _ y (drain_once_ok d ch)))
          (elim ended [
            | inl (p, un, lg, marks) ↦
                let (none_left, sent) =
                  turns-Emptied n y.1.0.committed y.1.1 distinct (rw un (length-drop b n u few)) in
                (
                  none_left,
                  sent
                      ∙ ap (λ l. l ++ all (unpublished locked y.1.0.committed.outbox)) lg
                      ∙ append_assoc (log ch) (all (take (suc b) u)) _
                      ∙ ap (λ l. log ch ++ l)
                          (ap (λ l. all (take (suc b) u) ++ all l) un
                            ∙ sym (
                                messages-append dumps repr duplicate_mode exchange (take (suc b) u)
                                  (drop (suc b) u))
                            ∙ ap all (sym (take-drop (suc b) u))),
                )
            | inr (e, done, left, p, same, split, began) ↦ cc (p, drain_once_ok d ch)
          ])
