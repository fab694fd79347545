-- ===== src/Pyevents/Db/Once.antt =====
-- What the guard of libs/pyevents/pyevents/db.py promises to any handler body.
use event_driven_demo.Base.{
  ◌≡◌, refl, sym, subst, ◌⊎◌, inl, inr, ap, String, Bool, true, false, List, [], ◌∷◌, elem, arith,
  eq_refl, if◌then◌else◌, Bool-cases,
}
use event_driven_demo.Pyevents.Effect.{Error, Result, ok, err, ⊤, Action}
use event_driven_demo.Pyevents.Db.{Store, Conn, idle, process_once, HandleUnit, handle_once, once}

-- No transaction is open.
abbrev pub IsClosed : {D : Type 0} → Conn D → Type 0
IsClosed c = c.current ≡ c.committed

-- The database that the body of a first run starts from.
abbrev pub marked : {S : Type 0} → String → Store S → Store S
marked event_id d = record d { processed = event_id ∷ d.processed }

-- How a guarded run may end: nothing is committed, or a first run has returned and all that it
-- wrote is committed with the mark.
abbrev pub Atomic :
    {S A : Type 0}
    → String
    → (Bool → Action (Store S) A)
    → Conn (Store S)
    → Result A × Conn (Store S)
    → Type 0
Atomic {S} {A} event_id body c (r, c') =
    IsClosed c'
    × ((c'.committed ≡ c.committed)
        ⊎ ((elem event_id c.current.processed ≡ false)
            × (body true (marked event_id c.current) ≡ (r, c'.committed))
            × ((a : A) × (r ≡ ok a))))

module _ {S A : Type 0} where
  -- `process_once` leaves no transaction open, and commits all of a first run or nothing.
  pub process_once-Atomic :
      (event_id : String) (body : Bool → Action (Store S) A) (c : Conn (Store S))
      → Atomic event_id body c (process_once event_id body c)
  unfolding process_once
  process_once-Atomic event_id body c = ground arith

  -- So does `handle_once`.
  pub handle_once-Atomic :
      (event_id : String) (body : HandleUnit → Action (Store S) A) (c : Conn (Store S))
      → Atomic event_id (λ b. body (record { first_time = b })) c (handle_once event_id body c)
  unfolding handle_once
  handle_once-Atomic event_id body c = ground arith

module _ {S : Type 0} (event_id : String) (work : Action (Store S) ⊤) (d : Store S) where
  -- A duplicate does nothing and is reported as handled.
  pub handle_once_duplicate :
      elem event_id d.processed ≡ true → handle_once event_id (once work) (idle d) ≡ (ok tt, idle d)
  unfolding handle_once
  handle_once_duplicate h = rw h

  pub handle_once_first :
      {d' : Store S}
      → elem event_id d.processed ≡ false
      → work (marked event_id d) ≡ (ok tt, d')
      → handle_once event_id (once work) (idle d) ≡ (ok tt, idle d')
  unfolding handle_once
  handle_once_first h e = ground arith

  -- A delivery returns where the work does.
  pub handle_once_returns :
      (work (marked event_id d)).0 ≡ ok tt → (handle_once event_id (once work) (idle d)).0 ≡ ok tt
  unfolding handle_once
  handle_once_returns total = elim (Bool-cases (elem event_id d.processed)) [
    | inl seen ↦ rw seen refl
    | inr new ↦ rw (new, total) refl
  ]

  pub handle_once_raise :
      {e : Error} {d' : Store S}
      → elem event_id d.processed ≡ false
      → work (marked event_id d) ≡ (err e, d')
      → handle_once event_id (once work) (idle d) ≡ (err e, idle d)
  unfolding handle_once
  handle_once_raise h e = ground arith

  -- What holds of the database and survives the mark and the work, holds of what is committed.
  pub handle_once_invariant :
      (I : Store S → Type 0)
      → I (marked event_id d)
      → (I (marked event_id d) → I (work (marked event_id d)).1)
      → I d
      → I (handle_once event_id (once work) (idle d)).1.committed
  handle_once_invariant I hm hw h = elim (handle_once-Atomic event_id (once work) (idle d)).1 [
    | inl same ↦ subst I (sym same) h
    | inr (new, ran, r) ↦ subst I (ap (λ p. p.1) ran) (hw hm)
  ]

-- A second delivery of an event does nothing, whatever it would do, when the work of the first leaves
-- the marks alone and does not raise.
pub handle_once_repeat :
    {S : Type 0} (event_id : String) (work work' : Action (Store S) ⊤) (d : Store S)
    → (work (marked event_id d)).1.processed ≡ event_id ∷ d.processed
    → (work (marked event_id d)).0 ≡ ok tt
    → let d' = (handle_once event_id (once work) (idle d)).1.committed in
      handle_once event_id (once work') (idle d') ≡ (ok tt, idle d')
handle_once_repeat event_id work work' d keeps total =
    elim (Bool-cases (elem event_id d.processed)) [
      | inl seen ↦
          rw (handle_once_duplicate event_id work d seen)
            (handle_once_duplicate event_id work' d seen)
      | inr new ↦
          let d' = (work (marked event_id d)).1 in
          let first : handle_once event_id (once work) (idle d) ≡ (ok tt, idle d') =
            handle_once_first event_id work d new (λ i. (total i, d')) in
          rw first
            (handle_once_duplicate event_id work' d' (rw keeps (ground (arith, eq_refl event_id))))
    ]

-- A consumer whose handler runs `work m` once for each `key m`.
module _ {S M : Type 0} (key : M → String) (work : M → Action (Store S) ⊤) where
  -- The committed database after one delivery of `m`, whether it was handled or raised.
  unfoldable pub deliver : M → Store S → Store S
  deliver m d = (handle_once (key m) (once (work m)) (idle d)).1.committed

  unfoldable pub deliver_all : List M → Store S → Store S
  unfolding deliver
  deliver_all [] d = d
  deliver_all (m ∷ ms) d = deliver_all ms (deliver m d)

-- The messages whose event id has not been seen before, in order.
unfoldable pub dedupe : {M : Type 0} → (M → String) → List String → List M → List M
dedupe key seen [] = []
dedupe key seen (m ∷ ms) =
    if elem (key m) seen then dedupe key seen ms else m ∷ dedupe key (key m ∷ seen) ms

module _ {S M : Type 0} (key : M → String) (work : M → Action (Store S) ⊤)
    (keeps : (m : M) (d : Store S) → (work m d).1.processed ≡ d.processed) where
  pub deliver-processed :
      (m : M) (d : Store S) → elem (key m) d.processed ≡ true → deliver key work m d ≡ d
  unfolding deliver
  deliver-processed m d h = ap (λ p. p.1.committed) (handle_once_duplicate (key m) (work m) d h)

  -- Delivering a message twice commits what delivering it once does.
  pub deliver_twice :
      (m : M) (d : Store S) → deliver key work m (deliver key work m d) ≡ deliver key work m d
  unfolding deliver handle_once
  deliver_twice m d = ground (arith, keeps m (marked (key m) d), eq_refl (key m))

module _ {S M : Type 0} (key : M → String) (work : M → Action (Store S) ⊤)
    (keeps : (m : M) (d : Store S) → (work m d).1.processed ≡ d.processed)
    (total : (m : M) (d : Store S) → (work m d).0 ≡ ok tt) where
  pub deliver_new :
      (m : M) (d : Store S)
      → elem (key m) d.processed ≡ false
      → (deliver key work m d).processed ≡ key m ∷ d.processed
  unfolding deliver handle_once
  deliver_new m d h = ground (arith, keeps m (marked (key m) d), total m (marked (key m) d))

  -- However often messages are delivered, the outcome is that of one delivery of each.
  pub deliver_all-dedupe :
      (ms : List M) (d : Store S)
      → deliver_all key work ms d ≡ deliver_all key work (dedupe key d.processed ms) d
  unfolding deliver_all dedupe
  deliver_all-dedupe [] d = refl
  deliver_all-dedupe (m ∷ ms) d = elim (Bool-cases (elem (key m) d.processed)) [
    | inl seen ↦ rw (seen, deliver-processed key work keeps m d seen) (deliver_all-dedupe ms d)
    | inr new ↦ rw new (rw (← deliver_new m d new) (deliver_all-dedupe ms (deliver key work m d)))
  ]
