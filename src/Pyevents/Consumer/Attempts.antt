-- ===== src/Pyevents/Consumer/Attempts.antt =====
-- The life of a message that keeps failing: `_on_message` of libs/pyevents/pyevents/consumer.py, and
-- the retry queue that infra/topology.py declares, which returns a message to its queue under the
-- queue's own name after the delay.
use Prim.Native.String.{◌++◌ as text_append}
use text.Mathlib.TextLemmas.{append_cancel_left}
use mathlib.Core.List.{append_assoc}
use event_driven_demo.Base.{
  ℕ, zero, suc, ◌+◌, ◌≤◌, ◌≡◌, refl, sym, ap, subst, ◌∙◌, ◌≢◌, String, true, false, Option, none,
  some, List, [], ◌∷◌, ◌++◌, arith, str_eq, str_eq-ne, eq_refl, leb, if◌then◌else◌, Bool-cases, inl,
  inr,
}
use event_driven_demo.Pyevents.Json.{Json, num, string, obj, Dict, get}
use event_driven_demo.Pyevents.Effect.{Error, Result, ok, ⊤}
use event_driven_demo.Pyevents.Consumer.{
  Message, Delivery, retry_count_key, original_rk_key, set_item, int_header, original_of,
  message_of, on_message,
}
use event_driven_demo.Pyevents.Consumer.Life.{
  get-set_item, Fate, dead, lost, stop, again, routed, returned, follow, failing, tries, DiesAfter,
  life,
}

module _ (loads : String → Result (Option Json)) (int_of : String → Result ℕ)
    (repr : Json → String) where
  module _ {S : Type 0} (queue : String) (handler : Message → S → Result ⊤ × S)
      (max_attempts fuel : ℕ) (d : Delivery) (s s' : S) where
    abbrev s₁ : S
    s₁ = (on_message loads int_of repr queue handler max_attempts true d s).1

    life_stop :
        (fate : Fate)
        → routed queue (on_message loads int_of repr queue handler max_attempts true d s).0
          ≡ stop fate
        → (on_message loads int_of repr queue handler max_attempts true d s).1 ≡ s'
        → life loads int_of repr queue handler max_attempts (suc fuel) d s ≡ (fate, s')
    unfolding life
    life_stop fate p q =
        subst
          (λ n.
            follow s₁
              (λ headers.
                life loads int_of repr queue handler max_attempts fuel (returned queue headers d)
                  s₁)
              n
            ≡ (fate, s'))
          (sym p) (ap (λ t. (fate, t)) q)

    life_again :
        (headers : Dict)
        → routed queue (on_message loads int_of repr queue handler max_attempts true d s).0
          ≡ again headers
        → (on_message loads int_of repr queue handler max_attempts true d s).1 ≡ s'
        → life loads int_of repr queue handler max_attempts (suc fuel) d s
          ≡ life loads int_of repr queue handler max_attempts fuel (returned queue headers d) s'
    unfolding life
    life_again headers p q =
        subst
          (λ n.
            follow s₁
              (λ h. life loads int_of repr queue handler max_attempts fuel (returned queue h d) s₁)
              n
            ≡ life loads int_of repr queue handler max_attempts fuel (returned queue headers d) s')
          (sym p)
          (ap (life loads int_of repr queue handler max_attempts fuel (returned queue headers d)) q)

  module _ (queue rk : String) (e : Error) (named : rk ≢ "") where
    retry-ne-dead : str_eq (text_append queue ".dead") (text_append queue ".retry") ≡ false
    retry-ne-dead = str_eq-ne _ _ differ
      where
        differ : text_append queue ".dead" ≢ text_append queue ".retry"
        differ p = cc (append_cancel_left queue ".dead" ".retry" p)

    -- The headers after a failed attempt number `k`.
    abbrev after : ℕ → Dict → Dict
    after k headers =
        set_item original_rk_key (string rk) (set_item retry_count_key (num k) headers)

    one_try :
        (max_attempts c : ℕ) (d : Delivery) (body : Dict) (seen : List (String × ℕ))
        → loads d.raw ≡ ok (some (obj body))
        → int_header loads int_of repr d.headers retry_count_key ≡ ok c
        → original_of loads int_of repr (get original_rk_key d.headers) d.routing_key ≡ rk
        → routed queue (on_message loads int_of repr queue (failing e) max_attempts true d seen).0
          ≡ (if leb max_attempts (c + 1)
              then stop (dead (after (c + 1) d.headers))
              else again (after (c + 1) d.headers))
    unfolding on_message
    one_try max_attempts c d body seen h count orig = rw h (rw (count, orig) branches)
      where
        branches :
            (if str_eq
                (text_append queue (if leb max_attempts (c + 1) then ".dead" else ".retry"))
                (text_append queue ".retry")
              then again (after (c + 1) d.headers)
              else if str_eq
                  (text_append queue (if leb max_attempts (c + 1) then ".dead" else ".retry"))
                  (text_append queue ".dead")
              then stop (dead (after (c + 1) d.headers))
              else stop lost)
            ≡ (if leb max_attempts (c + 1)
                then stop (dead (after (c + 1) d.headers))
                else again (after (c + 1) d.headers))
        branches = elim (Bool-cases (leb max_attempts (c + 1))) [
          | inl last ↦ rw (last, retry-ne-dead, eq_refl (text_append queue ".dead"))
          | inr more ↦ rw (more, eq_refl (text_append queue ".retry"))
        ]

    one_note :
        (max_attempts c : ℕ) (d : Delivery) (body : Dict) (seen : List (String × ℕ))
        → loads d.raw ≡ ok (some (obj body))
        → int_header loads int_of repr d.headers retry_count_key ≡ ok c
        → original_of loads int_of repr (get original_rk_key d.headers) d.routing_key ≡ rk
        → (on_message loads int_of repr queue (failing e) max_attempts true d seen).1
          ≡ seen ++ (rk, c + 1) ∷ []
    unfolding on_message message_of
    one_note max_attempts c d body seen h count orig = rw h (rw (count, orig))

    -- The next delivery carries the count and the original routing key.
    count_after :
        (k : ℕ) (headers : Dict)
        → int_header loads int_of repr (after k headers) retry_count_key ≡ ok k
    count_after k headers =
        rw (get-set_item retry_count_key original_rk_key (string rk) _)
          (rw (get-set_item retry_count_key retry_count_key (num k) headers) refl)

    original_after :
        (k : ℕ) (headers : Dict) (other : String)
        → original_of loads int_of repr (get original_rk_key (after k headers)) other ≡ rk
    original_after k headers other =
        rw (get-set_item original_rk_key original_rk_key (string rk) _)
          (rw (str_eq-ne rk "" named) refl)

    count_of : (k : ℕ) (headers : Dict) → get retry_count_key (after k headers) ≡ some (num k)
    count_of k headers =
        rw (get-set_item retry_count_key original_rk_key (string rk) _)
          (rw (get-set_item retry_count_key retry_count_key (num k) headers) refl)

    is_last : (max_attempts k : ℕ) → k ≡ max_attempts → leb max_attempts k ≡ true
    is_last max_attempts k p = ground (arith, p)

    is_more :
        (max_attempts n c : ℕ) → c + suc (suc n) ≡ max_attempts → leb max_attempts (c + 1) ≡ false
    is_more max_attempts n c p = ground (arith, p)

    -- From a delivery that has failed `c` times, the remaining `n + 1` attempts are made, each under
    -- the original routing key, and then the message is dead.
    keeps_failing :
        (n c max_attempts : ℕ) (d : Delivery) (body : Dict) (seen : List (String × ℕ))
        → c + suc n ≡ max_attempts
        → loads d.raw ≡ ok (some (obj body))
        → int_header loads int_of repr d.headers retry_count_key ≡ ok c
        → original_of loads int_of repr (get original_rk_key d.headers) d.routing_key ≡ rk
        → DiesAfter max_attempts
            (seen ++ tries rk (c + 1) (suc n))
            (life loads int_of repr queue (failing e) max_attempts (suc n) d seen)
    keeps_failing zero c max_attempts d body seen sum h count orig =
        rw
          (life_stop queue (failing e) max_attempts zero d seen (seen ++ (rk, c + 1) ∷ [])
            (dead (after (c + 1) d.headers))
            (one_try max_attempts c d body seen h count orig
              ∙ rw (is_last max_attempts (c + 1) sum) refl)
            (one_note max_attempts c d body seen h count orig))
          (
            after (c + 1) d.headers,
            refl,
            count_of (c + 1) d.headers ∙ ap (λ k. some (num k)) sum,
            refl,
          )
    keeps_failing (suc n) c max_attempts d body seen sum h count orig =
        rw
          (life_again queue (failing e) max_attempts (suc n) d seen (seen ++ (rk, c + 1) ∷ [])
            (after (c + 1) d.headers)
            (one_try max_attempts c d body seen h count orig
              ∙ rw (is_more max_attempts n c sum) refl)
            (one_note max_attempts c d body seen h count orig))
          (rw (← append_assoc seen ((rk, c + 1) ∷ []) (tries rk (c + 1 + 1) (suc n))) (
            keeps_failing n (c + 1) max_attempts (returned queue (after (c + 1) d.headers) d) body
              (seen ++ (rk, c + 1) ∷ []) (omega (arith, sum)) h (count_after (c + 1) d.headers)
              (original_after (c + 1) d.headers queue)))

    -- A message whose handler always raises and that carries no retry count is handled exactly
    -- `max_attempts` times, as the attempts 1 to `max_attempts`, every time under its original routing
    -- key, and ends in the dead queue with `max_attempts` as its count; `max_attempts` is positive, the
    -- body is a dict and the routing key is not empty.
    pub persistent_failure :
        (max_attempts : ℕ) (d : Delivery) (body : Dict)
        → 1 ≤ max_attempts
        → d.routing_key ≡ rk
        → loads d.raw ≡ ok (some (obj body))
        → get retry_count_key d.headers ≡ none
        → get original_rk_key d.headers ≡ none
        → DiesAfter max_attempts
            (tries rk 1 max_attempts)
            (life loads int_of repr queue (failing e) max_attempts max_attempts d [])
    persistent_failure zero d body positive key h no_count no_key = absurd (omega (arith, positive))
    persistent_failure (suc n) d body positive key h no_count no_key =
        keeps_failing n 0 (suc n) d body [] (omega arith) h (rw no_count refl)
          (rw (no_key, key) refl)
