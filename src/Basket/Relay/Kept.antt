-- ===== src/Basket/Relay/Kept.antt =====
-- internal/basket/outbox: where a recorded checkout is after a cycle of the relay.
use golang_microservices_eco.Prelude.{
  ℕ, suc, ◌+◌, ◌≡◌, refl, ◌∙◌, List, [], ◌∷◌, ◌++◌, any, Bool, true, ◌==◌, ◌&&◌, ◌||◌, leb, negate,
  if◌then◌else◌, arith, inl, inr, Bool-cases,
}
use golang_microservices_eco.Platform.Messaging.{Envelope}
use golang_microservices_eco.Ordering.Outbox.Stores.{Answer, accepted, refused, lost, cancelled}
use golang_microservices_eco.Basket.Relay.{
  MessageRow, RelayOptions, RelayEnv, RelayWorld, delete_row, fail_row, poison_row, note_failure,
  publish_row, publish_rows, relay_once, write, received,
}

abbrev has_row : ℕ → List MessageRow → Bool
has_row id rows = any (λ r. r.envelope.id == id) rows

abbrev was_taken : ℕ → List Envelope → Bool
was_taken id messages = any (λ m. m.id == id) messages

-- A message is in the table or has been accepted by the broker.
abbrev pub is_kept : ℕ → RelayWorld → Bool
is_kept id w = has_row id w.rows || was_taken id w.accepted_messages

has_row-delete_row :
    (id other : ℕ) (rows : List MessageRow)
    → has_row id (delete_row other rows) ≡ (has_row id rows && negate (id == other))
unfolding delete_row
has_row-delete_row id other [] = refl
has_row-delete_row id other (r ∷ rows) = ground (arith, has_row-delete_row id other rows)

has_row-fail_row :
    (id other next : ℕ) (rows : List MessageRow)
    → has_row id (fail_row other next rows) ≡ has_row id rows
unfolding fail_row
has_row-fail_row id other next [] = refl
has_row-fail_row id other next (r ∷ rows) = ground (arith, has_row-fail_row id other next rows)

has_row-poison_row :
    (id other : ℕ) (rows : List MessageRow) → has_row id (poison_row other rows) ≡ has_row id rows
unfolding poison_row
has_row-poison_row id other [] = refl
has_row-poison_row id other (r ∷ rows) = ground (arith, has_row-poison_row id other rows)

was_taken-append :
    (id : ℕ) (ms : List Envelope) (m : Envelope)
    → was_taken id (ms ++ m ∷ []) ≡ (was_taken id ms || m.id == id)
was_taken-append id [] m = ground arith
was_taken-append id (x ∷ ms) m = ground (arith, was_taken-append id ms m)

module _ (env : RelayEnv) (options : RelayOptions) where
  write-is_kept :
      (id : ℕ) (rows : List MessageRow) (w : RelayWorld)
      → has_row id rows ≡ has_row id w.rows
      → is_kept id (write env options rows w).1 ≡ is_kept id w
  write-is_kept id rows w h = ground (arith, h)

  note_failure-is_kept :
      (id : ℕ) (message : MessageRow) (w : RelayWorld)
      → is_kept id (note_failure env options message w).1 ≡ is_kept id w
  unfolding note_failure
  note_failure-is_kept id message w =
      elim (Bool-cases (leb options.max_attempts (message.attempts + 1))) [
        | inl last ↦ rw last (
            write-is_kept id (poison_row message.envelope.id w.rows) w
              (has_row-poison_row id message.envelope.id w.rows))
        | inr early ↦ rw early (
            write-is_kept id (fail_row message.envelope.id _ w.rows) w
              (has_row-fail_row id message.envelope.id _ w.rows))
      ]

  publish_row-is_kept :
      (id : ℕ) (message : MessageRow) (answer : Answer) (w : RelayWorld)
      → is_kept id w ≡ true
      → is_kept id (publish_row env options message answer w).1.1 ≡ true
  unfolding publish_row
  publish_row-is_kept id message accepted w h = ground (
    arith,
    has_row-delete_row id message.envelope.id w.rows,
    was_taken-append id w.accepted_messages message.envelope,
  )
  publish_row-is_kept id message (refused cause) w h =
      note_failure-is_kept id message (record w { calls = suc w.calls }) ∙ h
  publish_row-is_kept id message (lost cause) w h =
      note_failure-is_kept id message (received env options message w)
      ∙ ground (arith, was_taken-append id w.accepted_messages message.envelope)
  publish_row-is_kept id message cancelled w h = h

  publish_rows-is_kept :
      (id : ℕ) (messages : List MessageRow) (n : ℕ) (w : RelayWorld)
      → is_kept id w ≡ true
      → is_kept id (publish_rows env options messages n w).1 ≡ true
  unfolding publish_rows
  publish_rows-is_kept id [] n w h = h
  publish_rows-is_kept id (message ∷ messages) n w h =
      let step = publish_row env options message (env.broker w.calls message.envelope) w in
      let kept = publish_row-is_kept id message (env.broker w.calls message.envelope) w h in
      elim (Bool-cases (env.context_done w.calls)) [
        | inl done ↦ rw done h
        | inr going ↦ elim (Bool-cases step.1.0) [
          | inl fine ↦
              rw (going, fine)
                (publish_rows-is_kept id messages (if step.0 then suc n else n) step.1.1 kept)
          | inr broken ↦ rw (going, broken) kept
        ]
      ]

  -- Whatever a cycle of the relay meets of failing statements, refusals and lost answers of the
  -- broker and a cancelled context, a recorded checkout is afterwards still in the table or has
  -- been accepted by the broker.
  pub relay_once-is_kept :
      (id : ℕ) (w : RelayWorld)
      → is_kept id w ≡ true
      → is_kept id (relay_once env options w).1 ≡ true
  unfolding relay_once
  relay_once-is_kept id w h = elim (Bool-cases (env.database_fails w.calls)) [
    | inl fails ↦ rw fails h
    | inr works ↦ rw works (publish_rows-is_kept id _ 0 (record w { calls = suc w.calls }) h)
  ]
