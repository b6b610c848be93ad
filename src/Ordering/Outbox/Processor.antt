-- ===== src/Ordering/Outbox/Processor.antt =====
-- internal/ordering/outbox/processor.go: one cycle of the worker.
pub mod Settled
pub mod Progress
mod NoLoss
pub mod Durable
pub mod Retry
use golang_microservices_eco.Prelude.{
  ℕ, suc, ◌+◌, String, List, [], ◌∷◌, ◌++◌, Bool, true, false, leb, if◌then◌else◌,
}
use golang_microservices_eco.Platform.Messaging.{Envelope}
use golang_microservices_eco.Ordering.Outbox.Errors.{Error, Result, ok, err, stopped}
use golang_microservices_eco.Ordering.Outbox.Reader.{Group}
use golang_microservices_eco.Ordering.Outbox.Stores.{
  Env, World, CycleResult, Status, idle, processed, faulted, Answer, accepted, refused, lost,
  cancelled, Failure, Exec, pure, raise, and_then, ◌>>=◌, ◌>>◌, next_call, load, save, get_failure,
  record_failure, mark_poisoned, read_batch, check_context,
}

-- Options, as far as a cycle reads them. The batch size and the attempts are natural numbers.
pub record Options : Type 0 where
  pub consumer_name : String
  pub batch_size : ℕ
  pub max_publish_attempts : ℕ

abbrev set_result : CycleResult → Exec (Unit {0})
set_result r w = (ok tt, record w { result = r })

abbrev pub set_status : Status → Exec (Unit {0})
set_status s w = (ok tt, record w { result = record (w.result) { status = s } })

abbrev count_published : Exec (Unit {0})
count_published w =
    (ok tt, record w { result = record (w.result) { published = suc w.result.published } })

abbrev count_poisoned : Exec (Unit {0})
count_poisoned w =
    (ok tt, record w { result = record (w.result) { poisoned = suc w.result.poisoned } })

-- What a publish leaves behind: the broker has what it accepted.
receive : Envelope → Answer → Exec Answer
receive message accepted w = (
  ok accepted,
  record w { calls = suc w.calls; accepted_messages = w.accepted_messages ++ message ∷ [] },
)
receive message (refused cause) w = (ok (refused cause), next_call w)
receive message (lost cause) w = (
  ok (lost cause),
  record w { calls = suc w.calls; accepted_messages = w.accepted_messages ++ message ∷ [] },
)
receive message cancelled w = (ok cancelled, next_call w)

module _ (env : Env) (options : Options) where
  -- recordFailure: whether the cycle may go on.
  unfoldable pub note_failure : Envelope → List ℕ → Exec Bool
  note_failure message cause = do
    attempts ← record_failure env message.id cause
    if leb options.max_publish_attempts attempts
        then (do mark_poisoned env message.id; count_poisoned; pure true)
        else pure false

  -- What follows the answer of the broker.
  unfoldable pub after_publish : Envelope → Answer → Exec Bool
  after_publish message accepted = do count_published; pure true
  after_publish message (refused cause) = note_failure message cause
  after_publish message (lost cause) = note_failure message cause
  after_publish message cancelled = raise stopped

  unfoldable pub send : Envelope → Exec Answer
  unfolding receive
  send message w = receive message (env.broker w.calls message) w

  unfoldable pub publish : Envelope → Exec Bool
  publish message = do
    failure ← get_failure env message.id
    if failure.poisoned then pure true else (do answer ← send message; after_publish message answer)

  -- The loop over the messages of one group: whether all were handled.
  unfoldable pub process_messages : List Envelope → Exec Bool
  process_messages [] = pure true
  process_messages (message ∷ messages) = do
    check_context env
    handled ← publish message
    if handled then process_messages messages else pure false

  -- The loop over the groups of a batch.
  unfoldable pub process_groups : List Group → Exec (Unit {0})
  process_groups [] = pure tt
  process_groups (group ∷ groups) = do
    handled ← process_messages group.messages
    if handled
        then (do save env options.consumer_name group.lsn; process_groups groups)
        else set_status faulted

  -- What follows the read of a batch.
  unfoldable pub process_batch : List Group → Exec (Unit {0})
  process_batch [] = pure tt
  process_batch (group ∷ groups) = do set_status processed; process_groups (group ∷ groups)

  -- ProcessOnce; the result is the `result` of the world.
  unfoldable pub process_once : Exec (Unit {0})
  process_once = do
    set_result (record { status = idle; published = 0; poisoned = 0 })
    checkpoint ← load env options.consumer_name
    batch ← read_batch env checkpoint options.batch_size
    process_batch batch
