-- ===== src/Basket/Relay.antt =====
-- internal/basket/outbox/outbox.go over the table of internal/basket/postgres/outbox.go: a cycle of
-- the relay. The environment decides what each external call meets; `calls` numbers them. The
-- recorded error texts are left out.
pub mod Kept
use golang_microservices_eco.Prelude.{
  ℕ, suc, ◌+◌, String, List, [], ◌∷◌, ◌++◌, map, keep, take, Bool, true, false, ◌==◌, ◌&&◌, ◌||◌,
  ltb, leb, negate, if◌then◌else◌,
}
use golang_microservices_eco.Platform.Messaging.{Envelope}
use golang_microservices_eco.Platform.Backoff.{Jitter, backoff}
use golang_microservices_eco.Ordering.Outbox.Stores.{Answer, accepted, refused, lost, cancelled}

-- A row of basket_outbox_messages; `poisoned` is that poisoned_on_utc is set.
pub record MessageRow : Type 0 where
  pub envelope : Envelope
  pub attempts : ℕ
  pub next_attempt : ℕ
  pub poisoned : Bool

pub record RelayOptions : Type 0 where
  pub batch_size : ℕ
  pub max_attempts : ℕ
  pub retry_base_delay : ℕ
  pub retry_max_delay : ℕ

pub record RelayEnv : Type 0 where
  pub database_fails : ℕ → Bool
  pub context_done : ℕ → Bool
  pub broker : ℕ → Envelope → Answer
  pub clock : ℕ → ℕ
  pub jitter : Jitter

pub record RelayWorld : Type 0 where
  pub calls : ℕ
  pub rows : List MessageRow
  pub accepted_messages : List Envelope

-- How a cycle or a call ends.
pub data Outcome : Type 0 where
  published : ℕ → Outcome
  failed : ℕ → Outcome

-- ORDER BY occurred_on_utc, id.
abbrev goes_first : MessageRow → MessageRow → Bool
goes_first a b =
    ltb a.envelope.occurred_on_utc b.envelope.occurred_on_utc
    || (a.envelope.occurred_on_utc == b.envelope.occurred_on_utc && leb a.envelope.id b.envelope.id)

insert_row : MessageRow → List MessageRow → List MessageRow
insert_row row [] = row ∷ []
insert_row row (r ∷ rows) =
    let rest = insert_row row rows in if goes_first row r then row ∷ r ∷ rows else r ∷ rest

unfoldable pub order_rows : List MessageRow → List MessageRow
unfolding insert_row
order_rows [] = []
order_rows (r ∷ rows) = insert_row r (order_rows rows)

-- The query of Due.
unfoldable pub due : ℕ → ℕ → List MessageRow → List MessageRow
due limit now rows =
    take limit (order_rows (keep (λ r. negate r.poisoned && leb r.next_attempt now) rows))

unfoldable pub delete_row : ℕ → List MessageRow → List MessageRow
delete_row id rows = keep (λ r. negate (r.envelope.id == id)) rows

abbrev failed_row : ℕ → ℕ → MessageRow → MessageRow
failed_row id next r =
    if r.envelope.id == id then record r { attempts = r.attempts + 1; next_attempt = next } else r

unfoldable pub fail_row : ℕ → ℕ → List MessageRow → List MessageRow
fail_row id next rows = map (failed_row id next) rows

abbrev poisoned_row : ℕ → MessageRow → MessageRow
poisoned_row id r =
    if r.envelope.id == id && negate r.poisoned
    then record r { attempts = r.attempts + 1; poisoned = true }
    else r

unfoldable pub poison_row : ℕ → List MessageRow → List MessageRow
poison_row id rows = map (poisoned_row id) rows

module _ (env : RelayEnv) (options : RelayOptions) where
  -- A statement on the table, and whether it went through.
  abbrev pub write : List MessageRow → RelayWorld → Bool × RelayWorld
  write rows w =
      if env.database_fails w.calls
      then (false, record w { calls = suc w.calls })
      else (true, record w { calls = suc w.calls; rows = rows })

  -- What publish does with the failure of the broker.
  unfoldable pub note_failure : MessageRow → RelayWorld → Bool × RelayWorld
  note_failure message w =
      if leb options.max_attempts (message.attempts + 1)
      then write (poison_row message.envelope.id w.rows) w
      else write
          (fail_row message.envelope.id
            (env.clock w.calls
              + backoff env.jitter options.retry_base_delay options.retry_max_delay
                  (message.attempts + 1))
            w.rows)
          w

  abbrev pub received : MessageRow → RelayWorld → RelayWorld
  received message w = record w {
    calls = suc w.calls;
    accepted_messages = w.accepted_messages ++ message.envelope ∷ [];
  }

  -- publish: whether the broker took the message, whether there was no error, and the world.
  unfoldable pub publish_row : MessageRow → Answer → RelayWorld → Bool × (Bool × RelayWorld)
  publish_row message accepted w =
      (true, write (delete_row message.envelope.id w.rows) (received message w))
  publish_row message (refused cause) w =
      (false, note_failure message (record w { calls = suc w.calls }))
  publish_row message (lost cause) w = (false, note_failure message (received message w))
  publish_row message cancelled w = (false, (false, record w { calls = suc w.calls }))

  -- The loop over the batch, with the number published so far.
  unfoldable pub publish_rows : List MessageRow → ℕ → RelayWorld → Outcome × RelayWorld
  publish_rows [] n w = (published n, w)
  publish_rows (message ∷ messages) n w =
      let (sent, (fine, v)) = publish_row message (env.broker w.calls message.envelope) w in
      let rest = publish_rows messages (if sent then suc n else n) v in
      if env.context_done w.calls
      then (published n, w)
      else if negate fine
      then (failed n, v)
      else rest

  unfoldable pub relay_once : RelayWorld → Outcome × RelayWorld
  relay_once w =
      if env.database_fails w.calls
      then (failed 0, record w { calls = suc w.calls })
      else publish_rows (due options.batch_size (env.clock w.calls) w.rows) 0
          (record w { calls = suc w.calls })
