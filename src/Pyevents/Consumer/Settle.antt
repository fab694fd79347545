-- ===== src/Pyevents/Consumer/Settle.antt =====
-- No message is lost by `_on_message` of libs/pyevents/pyevents/consumer.py.
use Prim.Native.String.{◌++◌ as text_append}
use event_driven_demo.Base.{
  ℕ, ◌+◌, ◌≡◌, refl, sym, ap, ◌∙◌, ◌≢◌, ◌⊎◌, inl, inr, String, Bool, true, false, if◌then◌else◌,
  Option, none, some, List, [], ◌∷◌, ◌++◌, arith, leb, Bool-cases,
}
use event_driven_demo.Pyevents.Json.{Json, null, obj, Dict}
use event_driven_demo.Pyevents.Effect.{Error, Result, ok, err, type_error, ⊤}
use event_driven_demo.Pyevents.Consumer.{
  Message, Delivery, Call, publish, ack, dlx, retry_count_key, message_of, int_header,
  after_handler, handle, parsed, on_message,
}

module _ (loads : String → Result (Option Json)) (int_of : String → Result ℕ) (repr : Json → String)
    {S : Type 0} (queue : String) (handler : Message → S → Result ⊤ × S) (max_attempts : ℕ) where
  -- The handler has returned on the message of this delivery.
  abbrev pub Handled : Delivery → S → S → Type 0
  Handled d s s' =
      (body : Dict) × (count : ℕ) × (loads d.raw ≡ ok (some (obj body)))
      × (handler (message_of loads int_of repr d body count) s ≡ (ok tt, s'))

  -- The delivery's body is published again, under the dead key or the retry key of the queue.
  abbrev pub Republished : Delivery → List Call → Type 0
  Republished d calls =
      (ending : String) × (headers : Dict) × (calls
        ≡ publish dlx (text_append queue ending) d.raw d.message_id d.kind headers ∷ ack ∷ [])
      × ((ending ≡ ".dead") ⊎ (ending ≡ ".retry"))

  ended :
      (d : Delivery) (body : Dict) (n : ℕ) (s s' : S) (calls : List Call) (x : Result ⊤ × S)
      → loads d.raw ≡ ok (some (obj body))
      → handler (message_of loads int_of repr d body n) s ≡ x
      → ◌≡◌ {A = Result (List Call) × S}
          (ok (after_handler loads int_of repr queue handler max_attempts true d n x.0), x.1)
          (ok calls, s')
      → ((calls ≡ ack ∷ []) × Handled d s s') ⊎ Republished d calls
  unfolding after_handler
  ended d body n s s' calls (ok _, s'') h ran k =
      inl (ground arith, (body, n, h, ran ∙ ap (λ t. (ok tt, t)) (ground arith)))
  ended d body n s s' calls (err e, s'') h ran k = elim (Bool-cases (leb max_attempts (n + 1))) [
    | inl last ↦ inr (".dead", _, sym (calls_of (rw last at k)), inl refl)
    | inr more ↦ inr (".retry", _, sym (calls_of (rw more at k)), inr refl)
  ]
    where
      calls_of :
          {c c' : List Call} {t t' : S}
          → ◌≡◌ {A = Result (List Call) × S} (ok c, t) (ok c', t')
          → c ≡ c'
      calls_of e = ground arith

  handle_settles :
      (d : Delivery) (body : Dict) (r : Result ℕ) (s s' : S) (calls : List Call)
      → loads d.raw ≡ ok (some (obj body))
      → handle loads int_of repr queue handler max_attempts true d body r s ≡ (ok calls, s')
      → ((calls ≡ ack ∷ []) × Handled d s s') ⊎ Republished d calls
  unfolding handle
  handle_settles d body (err e) s s' calls h k = cc
  handle_settles d body (ok n) s s' calls h k = ended d body n s s' calls _ h refl k

  parsed_settles :
      (d : Delivery) (v : Result (Option Json)) (s s' : S) (calls : List Call)
      → loads d.raw ≡ v
      → parsed loads int_of repr queue handler max_attempts true d v s ≡ (ok calls, s')
      → ((calls ≡ ack ∷ []) × Handled d s s') ⊎ Republished d calls
  unfolding parsed
  parsed_settles d (err e) s s' calls h k = cc
  parsed_settles d (ok none) s s' calls h k = inr (".dead", d.headers, ground arith, inl refl)
  parsed_settles d (ok (some (obj body))) s s' calls h k =
      handle_settles d body (int_header loads int_of repr d.headers retry_count_key) s s' calls h k
  parsed_settles d (ok (some null)) s s' calls h k = cc
  parsed_settles d (ok (some v)) s s' calls h k = cc

  -- With retries on, a delivery that the callback settles is acknowledged last, and either its
  -- handler has returned, or its body is published again, once, to the retry or the dead queue.
  pub on_message_settles :
      (d : Delivery) (s s' : S) (calls : List Call)
      → on_message loads int_of repr queue handler max_attempts true d s ≡ (ok calls, s')
      → ((calls ≡ ack ∷ []) × Handled d s s') ⊎ Republished d calls
  on_message_settles d s s' calls k =
      parsed_settles d (loads d.raw) s s' calls refl (unfold on_message in k)

  ack_last :
      (retry : Bool) (c : Call)
      → (before : List Call) × ((if retry then c ∷ ack ∷ [] else ack ∷ []) ≡ before ++ ack ∷ [])
  ack_last true c = (c ∷ [], refl)
  ack_last false c = ([], refl)

  -- The callback can read the delivery: its body is no JSON, or an object with a retry count.
  abbrev pub Readable : Delivery → Type 0
  Readable d =
      (loads d.raw ≡ ok none)
      ⊎ ((body : Dict) × (n : ℕ) × (loads d.raw ≡ ok (some (obj body)))
          × (int_header loads int_of repr d.headers retry_count_key ≡ ok n))

  -- The exception that leaves the callback otherwise.
  abbrev pub Escapes : Delivery → Error → Type 0
  Escapes d e =
      (loads d.raw ≡ err e)
      ⊎ (((v : Json) × (loads d.raw ≡ ok (some v))
            × ((body : Dict) → v ≢ obj body)
            × (e ≡ type_error))
          ⊎ ((body : Dict) × (loads d.raw ≡ ok (some (obj body)))
              × (int_header loads int_of repr d.headers retry_count_key ≡ err e)))

  module _ (retry : Bool) where
    -- How the callback ends.
    abbrev pub Ending : Delivery → S → Result (List Call) × S → Type 0
    Ending d s x =
        (Readable d × ((before : List Call) × (x.0 ≡ ok (before ++ ack ∷ []))))
        ⊎ ((e : Error) × Escapes d e × (x.0 ≡ err e) × (x.1 ≡ s))

    acknowledged :
        (d : Delivery) (n : ℕ) (r : Result ⊤)
        → (before : List Call) × (after_handler loads int_of repr queue handler max_attempts retry d
              n r
            ≡ before ++ ack ∷ [])
    unfolding after_handler
    acknowledged d n (ok _) = ([], refl)
    acknowledged d n (err _) = ack_last retry _

    handle_ends :
        (d : Delivery) (body : Dict) (r : Result ℕ) (s : S)
        → loads d.raw ≡ ok (some (obj body))
        → int_header loads int_of repr d.headers retry_count_key ≡ r
        → Ending d s (handle loads int_of repr queue handler max_attempts retry d body r s)
    unfolding handle
    handle_ends d body (err e) s h count = inr (e, inr (inr (body, h, count)), refl, refl)
    handle_ends d body (ok n) s h count =
        let (before, same) =
          acknowledged d n (handler (message_of loads int_of repr d body n) s).0 in
        inl (inr (body, n, h, count), (before, ap ok same))

    parsed_ends :
        (d : Delivery) (v : Result (Option Json)) (s : S)
        → loads d.raw ≡ v
        → Ending d s (parsed loads int_of repr queue handler max_attempts retry d v s)
    unfolding parsed
    parsed_ends d (err e) s h = inr (e, inl h, refl, refl)
    parsed_ends d (ok none) s h =
        let (before, same) = ack_last retry _ in inl (inl h, (before, ap ok same))
    parsed_ends d (ok (some (obj body))) s h =
        handle_ends d body (int_header loads int_of repr d.headers retry_count_key) s h refl
    parsed_ends d (ok (some null)) s h =
        inr (type_error, inr (inl (null, h, (λ body e. cc), refl)), refl, refl)
    parsed_ends d (ok (some v)) s h =
        inr (type_error, inr (inl (v, h, (λ body e. cc), refl)), refl, refl)

    -- Of every delivery: the callback returns, and has acknowledged it last, when its body is no JSON or
    -- an object with a readable retry count; and otherwise, when the bytes cannot be decoded, the JSON
    -- is no object or the count cannot be read, an exception leaves it, without an acknowledgement,
    -- without republishing and without running the handler.
    pub on_message_ends :
        (d : Delivery) (s : S)
        → Ending d s (on_message loads int_of repr queue handler max_attempts retry d s)
    unfolding on_message
    on_message_ends d s = parsed_ends d (loads d.raw) s refl
