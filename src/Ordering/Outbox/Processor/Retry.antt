-- ===== src/Ordering/Outbox/Processor/Retry.antt =====
-- internal/ordering/outbox: a message that the broker keeps refusing.
use golang_microservices_eco.Prelude.{
  ℕ, zero, suc, ◌+◌, ◌≤◌, ◌<◌, ◌≡◌, List, [], ◌∷◌, true, false, arith, inl, inr, Bool-cases, ◌⊎◌,
}
use golang_microservices_eco.Platform.Messaging.{Envelope}
use golang_microservices_eco.Ordering.Outbox.Errors.{ok}
use golang_microservices_eco.Ordering.Outbox.Stores.{
  Env, World, FailureRow, refused, bound_reason, find_failure, count_failure, get_failure,
  record_failure, mark_poisoned,
}
use golang_microservices_eco.Ordering.Outbox.Processor.{
  Options, note_failure, after_publish, receive, send, publish,
}
use golang_microservices_eco.Ordering.Outbox.Processor.Settled.{
  is_poisoned, is_poisoned-count_failure, poison_failure-count_failure,
}

abbrev attempts_of : ℕ → World → ℕ
attempts_of id w = (find_failure id w.failures).attempts

attempts-count_failure :
    (id : ℕ) (reason : List ℕ) (rows : List FailureRow)
    → (find_failure id (count_failure id reason rows)).attempts
      ≡ suc (find_failure id rows).attempts
unfolding find_failure count_failure
attempts-count_failure id reason [] = ground arith
attempts-count_failure id reason (row ∷ rows) =
    ground (arith, attempts-count_failure id reason rows)

module _ (env : Env) (options : Options) (message : Envelope) where
  -- Publishing the message n times, whatever else a cycle does in between left out.
  abbrev pub retry : ℕ → World → World
  retry zero w = w
  retry (suc n) w = (publish env options message (retry n w)).1

  module _ (reason : List ℕ) (works : (n : ℕ) → env.database_fails n ≡ false)
      (refuses : (n : ℕ) → env.broker n message ≡ refused reason) where
    publish-poisoned :
        (w : World)
        → is_poisoned message.id w.failures ≡ true
        → is_poisoned message.id (publish env options message w).1.failures ≡ true
    unfolding publish get_failure
    publish-poisoned w h = ground (arith, works w.calls)

    publish_past :
        (w : World)
        → is_poisoned message.id w.failures ≡ true
        → (publish env options message w).0 ≡ ok true
    unfolding publish get_failure
    publish_past w h = ground (arith, works w.calls)

    -- One refused publish counts an attempt, and the last one that is allowed gives up.
    publish-refused :
        (w : World)
        → is_poisoned message.id w.failures ≡ false
        → ((is_poisoned message.id (publish env options message w).1.failures ≡ true)
            × ((publish env options message w).0 ≡ ok true)
            × (options.max_publish_attempts ≤ suc (attempts_of message.id w)))
          ⊎ ((attempts_of message.id (publish env options message w).1
                ≡ suc (attempts_of message.id w))
              × ((publish env options message w).0 ≡ ok false)
              × (suc (attempts_of message.id w) < options.max_publish_attempts)
              × (is_poisoned message.id (publish env options message w).1.failures ≡ false))
    unfolding publish get_failure send receive after_publish note_failure record_failure
        mark_poisoned
    publish-refused w h = ground (
      arith,
      works w.calls,
      works (suc w.calls),
      works (suc (suc w.calls)),
      works (suc (suc (suc w.calls))),
      refuses (suc w.calls),
      attempts-count_failure message.id (bound_reason reason) w.failures,
      is_poisoned-count_failure message.id message.id (bound_reason reason) w.failures,
      poison_failure-count_failure message.id (bound_reason reason) w.failures,
    )

    retry_cases :
        (n : ℕ) (w : World)
        → (is_poisoned message.id (retry (suc n) w).failures ≡ true)
          ⊎ ((attempts_of message.id (retry (suc n) w) ≡ suc n + attempts_of message.id w)
              × (suc n + attempts_of message.id w < options.max_publish_attempts))
    retry_cases zero w = elim (Bool-cases (is_poisoned message.id w.failures)) [
      | inl given_up ↦ inl (publish-poisoned w given_up)
      | inr alive ↦ ground (arith, publish-refused w alive)
    ]
    retry_cases (suc n) w =
        let v = retry (suc n) w in
        elim (Bool-cases (is_poisoned message.id v.failures)) [
          | inl given_up ↦ inl (publish-poisoned v given_up)
          | inr alive ↦ ground (arith, publish-refused v alive, retry_cases n w)
        ]

    -- While the database works and the broker refuses a message each time, the message is given up
    -- on by the time its failed attempts reach the maximum; the first try counts one at least. From
    -- then on publishing it lets the cycle go on.
    pub retry-poisoned :
        (n : ℕ) (w : World)
        → options.max_publish_attempts ≤ suc n + attempts_of message.id w
        → (is_poisoned message.id (retry (suc n) w).failures ≡ true)
          × ((publish env options message (retry (suc n) w)).0 ≡ ok true)
    retry-poisoned n w enough =
        let given_up : is_poisoned message.id (retry (suc n) w).failures ≡ true =
          ground (arith, retry_cases n w) in
        (given_up, publish_past (retry (suc n) w) given_up)
