-- ===== src/Pyevents/Outbox/Effects.antt =====
-- The relay of libs/pyevents/pyevents/outbox.py and the guard of libs/pyevents/pyevents/db.py together: what
-- the messages that have gone out do to a consumer.
use event_driven_demo.Base.{
  ◌≡◌, refl, sym, ap, ◌∙◌, inl, inr, String, true, List, [], ◌∷◌, ◌++◌, arith, elem, All,
  Bool-cases, eq_refl,
}
use event_driven_demo.Pyevents.Effect.{ok, ⊤, Action}
use event_driven_demo.Pyevents.Db.{Store}
use event_driven_demo.Pyevents.Db.Once.{
  deliver, deliver_all, deliver-processed, deliver_twice, deliver_new,
}

module _ {S M : Type 0} (key : M → String) (work : M → Action (Store S) ⊤) where
  -- Two sequences of deliveries commit the same, from any database.
  abbrev pub Same : List M → List M → Type 0
  Same xs ys = (d : Store S) → deliver_all key work xs d ≡ deliver_all key work ys d

  pub deliver_all-append :
      (xs ys : List M) (d : Store S)
      → deliver_all key work (xs ++ ys) d ≡ deliver_all key work ys (deliver_all key work xs d)
  unfolding deliver_all
  deliver_all-append [] ys d = refl
  deliver_all-append (x ∷ xs) ys d = deliver_all-append xs ys (deliver key work x d)

  pub Same-append :
      (xs xs' ys ys' : List M) → Same xs xs' → Same ys ys' → Same (xs ++ ys) (xs' ++ ys')
  Same-append xs xs' ys ys' h k d =
      deliver_all-append xs ys d
      ∙ ap (deliver_all key work ys) (h d)
      ∙ k (deliver_all key work xs' d)
      ∙ sym (deliver_all-append xs' ys' d)

module _ {S M : Type 0} (key : M → String) (work : M → Action (Store S) ⊤)
    (keeps : (m : M) (d : Store S) → (work m d).1.processed ≡ d.processed)
    (total : (m : M) (d : Store S) → (work m d).0 ≡ ok tt) where
  -- The mark of a message stays.
  deliver-grows :
      (m : M) (k : String) (d : Store S)
      → elem k d.processed ≡ true
      → elem k (deliver key work m d).processed ≡ true
  deliver-grows m k d h = elim (Bool-cases (elem (key m) d.processed)) [
    | inl seen ↦ rw (deliver-processed key work keeps m d seen) h
    | inr new ↦ rw (deliver_new key work keeps total m d new) (ground (arith, h))
  ]

  deliver-marks : (m : M) (d : Store S) → elem (key m) (deliver key work m d).processed ≡ true
  deliver-marks m d = elim (Bool-cases (elem (key m) d.processed)) [
    | inl seen ↦ rw (deliver-processed key work keeps m d seen) seen
    | inr new ↦ rw (deliver_new key work keeps total m d new) (ground (arith, eq_refl (key m)))
  ]

  deliver_all-grows :
      (ms : List M) (k : String) (d : Store S)
      → elem k d.processed ≡ true
      → elem k (deliver_all key work ms d).processed ≡ true
  unfolding deliver_all
  deliver_all-grows [] k d h = h
  deliver_all-grows (m ∷ ms) k d h =
      deliver_all-grows ms k (deliver key work m d) (deliver-grows m k d h)

  -- All of the messages have been handled.
  abbrev Seen : List M → Store S → Type 0
  Seen ms d = All (λ m. elem (key m) d.processed ≡ true) ms

  deliver_all-Seen : (ms : List M) (d : Store S) → Seen ms (deliver_all key work ms d)
  unfolding deliver_all
  deliver_all-Seen [] d = tt
  deliver_all-Seen (m ∷ ms) d = (
    deliver_all-grows ms (key m) (deliver key work m d) (deliver-marks m d),
    deliver_all-Seen ms (deliver key work m d),
  )

  deliver_all_again : (ms : List M) (d : Store S) → Seen ms d → deliver_all key work ms d ≡ d
  unfolding deliver_all
  deliver_all_again [] d h = refl
  deliver_all_again (m ∷ ms) d (seen, h) =
      rw (deliver-processed key work keeps m d seen) (deliver_all_again ms d h)

  -- A beginning that is sent again with all that follows it.
  pub Same-resent : (done left : List M) → Same key work (done ++ (done ++ left)) (done ++ left)
  Same-resent done left d =
      deliver_all-append key work done (done ++ left) d
      ∙ deliver_all-append key work done left (deliver_all key work done d)
      ∙ ap (deliver_all key work left)
          (deliver_all_again done (deliver_all key work done d) (deliver_all-Seen done d))
      ∙ sym (deliver_all-append key work done left d)

  -- A message that is sent twice.
  pub Same-doubled : (m : M) → Same key work (m ∷ m ∷ []) (m ∷ [])
  unfolding deliver_all
  Same-doubled m d = deliver_twice key work keeps m d
