-- ===== src/Infra/Topology/Retry.antt =====
-- The retry queues of infra/topology.py: where the broker puts what the consume loop of
-- libs/pyevents/pyevents/consumer.py publishes again.
use Prim.Native.String.{◌++◌ as text_append}
use event_driven_demo.Base.{◌≡◌, refl, ◌∙◌, String, Bool, some, List, [], ◌∷◌, ◌++◌, All}
use event_driven_demo.Pyevents.Consumer.{dlx}
use event_driven_demo.Infra.Topology.{
  Kind, retry_delay_ms, event_queues, command_queues, Queues, declare,
}
use event_driven_demo.Infra.Topology.Routes.{
  Compares, compare_keys, receivers, receivers-compare_keys, dead_letter_of,
}

abbrev names : Queues → List String
names [] = []
names ((queue, bindings) ∷ queues) = queue ∷ names queues

-- The queues that are declared with retries.
abbrev pub work_queues : List String
work_queues = names event_queues ++ (names command_queues ++ "orchestrator.q" ∷ [])

-- What waits for a retry gets to the retry queue alone; after its time the broker publishes it under
-- the queue's name, which gets it back to the queue alone; and what has failed for good gets to the
-- dead letter queue alone.
pub record Retries (accepts : Kind → String → String → Bool) (queue : String) : Type 0 where
  pub waits : receivers accepts dlx (text_append queue ".retry") ≡ text_append queue ".retry" ∷ []
  pub expires :
      dead_letter_of (text_append queue ".retry") declare
      ≡ some (record { message_ttl = retry_delay_ms; exchange = dlx; routing_key = queue })
  pub returns : receivers accepts dlx queue ≡ queue ∷ []
  pub is_dead : receivers accepts dlx (text_append queue ".dead") ≡ text_append queue ".dlq" ∷ []

-- A queue that has its retries where keys are compared as in `compare_keys`, has them.
retries :
    (accepts : Kind → String → String → Bool)
    → Compares accepts
    → (queue : String) → Retries compare_keys queue
    → Retries accepts queue
retries accepts c queue h = record {
  waits = receivers-compare_keys accepts c (text_append queue ".retry") dlx ∙ h.waits;
  expires = h.expires;
  returns = receivers-compare_keys accepts c queue dlx ∙ h.returns;
  is_dead = receivers-compare_keys accepts c (text_append queue ".dead") dlx ∙ h.is_dead;
}

-- Every work queue has its retries: a message that the consume loop publishes again for a retry waits
-- in the retry queue alone and comes back, after its time, to its work queue alone, and one that it
-- publishes as dead ends in the dead letter queue alone.
pub work_queues-Retries :
    (accepts : Kind → String → String → Bool) → Compares accepts → All (Retries accepts) work_queues
unfolding receivers declare
work_queues-Retries accepts c = (
  retries accepts c "order.q"
      (record { waits = refl; expires = refl; returns = refl; is_dead = refl }),
  (
    retries accepts c "payment.cmd.q"
        (record { waits = refl; expires = refl; returns = refl; is_dead = refl }),
    (
      retries accepts c "inventory.cmd.q"
          (record { waits = refl; expires = refl; returns = refl; is_dead = refl }),
      (
        retries accepts c "shipping.cmd.q"
            (record { waits = refl; expires = refl; returns = refl; is_dead = refl }),
        (
          retries accepts c "orchestrator.q"
              (record { waits = refl; expires = refl; returns = refl; is_dead = refl }),
          tt,
        ),
      ),
    ),
  ),
)
