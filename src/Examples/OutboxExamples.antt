-- ===== src/Examples/OutboxExamples.antt =====
-- The worker of internal/ordering/outbox on a change table of three rows.
use golang_microservices_eco.Prelude.{
  ℕ, ◌/◌, ◌≡◌, refl, List, [], ◌∷◌, ◌++◌, some, none, true, false, arith, inl, negate, pos, map,
  leb, if◌then◌else◌,
}
use mathlib.Core.List.{reverse}
use golang_microservices_eco.Platform.Messaging.{Envelope}
use golang_microservices_eco.Platform.Backoff.{Jitter}
use golang_microservices_eco.Ordering.Outbox.Lsn.{Lsn, compare, before, is_zero}
use golang_microservices_eco.Ordering.Outbox.Errors.{ok, database}
use golang_microservices_eco.Ordering.Outbox.Reader.{
  ChangeRow, Server, Faults, Group, read, group_by_lsn, read_range, read_page, changes,
  drop_partial, last_lsn,
}
use golang_microservices_eco.Ordering.Outbox.Reader.Grouping.{rows_of, rows_of-group_by_lsn}
use golang_microservices_eco.Ordering.Outbox.Reader.Transactions.{IsCut}
use golang_microservices_eco.Ordering.Outbox.Reader.NoGap.{IsDocumented, unread, read-IsCut}
use golang_microservices_eco.Ordering.Outbox.Stores.{
  Env, World, refused, idle, processed, faulted, find_failure, lookup_checkpoint,
}
use golang_microservices_eco.Ordering.Outbox.Processor.{
  Options, process_once, process_groups, publish,
}
use golang_microservices_eco.Ordering.Outbox.Processor.Settled.{is_poisoned}
use golang_microservices_eco.Ordering.Outbox.Processor.Progress.{Progress, process_groups-Progress}
use golang_microservices_eco.Ordering.Outbox.Processor.Durable.{Covered, process_once-Covered}
use golang_microservices_eco.Ordering.Outbox.Processor.Retry.{retry, retry-poisoned}
use golang_microservices_eco.Ordering.Outbox.Worker.{
  Delays, Outcome, failed, finished, health, run, streak, unhealthy_after, health-run,
}

abbrev envelope : ℕ → Envelope
envelope id = record {
  id = id;
  contract = record { event_type = "OrderCreated"; version = pos 1 };
  aggregate_id = "order";
  correlation_id = "request";
  occurred_on_utc = 0;
  payload = [];
}

abbrev rows : List ChangeRow
rows =
    record { lsn = 0 ∷ 1 ∷ []; message = envelope 1 }
    ∷ record { lsn = 0 ∷ 1 ∷ []; message = envelope 2 }
    ∷ record { lsn = 0 ∷ 3 ∷ []; message = envelope 3 }
    ∷ []

-- The position that follows is the one with a zero byte more.
abbrev server : Server
server = record {
  changes = map (λ r. record { operation = 2; row = r }) rows;
  min_lsn = 0 ∷ 1 ∷ [];
  max_lsn = 0 ∷ 3 ∷ [];
  increment_lsn = λ a. a ++ 0 ∷ [];
}

before_increment : (a b : Lsn) → before b (a ++ 0 ∷ []) ≡ negate (before a b)
unfolding compare
before_increment [] [] = refl
before_increment [] (y ∷ []) = ground arith
before_increment [] (y ∷ z ∷ b) = ground arith
before_increment (x ∷ a) [] = refl
before_increment (x ∷ a) (y ∷ b) = ground (arith, before_increment a b)

server-IsDocumented : IsDocumented server
unfolding compare
server-IsDocumented = record {
  ordered = ((refl, (refl, tt)), ((refl, tt), (tt, tt)));
  retained = (refl, (refl, (refl, tt)));
  captured = (refl, (refl, (refl, tt)));
  next = λ a. (
    before_increment a (0 ∷ 1 ∷ []),
    (before_increment a (0 ∷ 1 ∷ []), (before_increment a (0 ∷ 3 ∷ []), tt)),
  );
}

abbrev no_faults : Faults
no_faults = record { bounds = false; page = false; transaction = false }

-- The third call is a publish, which the broker refuses each time.
abbrev env : Env
env = record {
  server = server;
  read_faults = λ n. no_faults;
  database_fails = λ n. false;
  context_done = λ n. false;
  broker = λ n m. refused (110 ∷ []);
}

abbrev options : Options
options = record { consumer_name = "ordering"; batch_size = 1; max_publish_attempts = 2 }

abbrev start : World
start = record {
  calls = 0;
  checkpoints = [];
  failures = [];
  accepted_messages = [];
  result = record { status = idle; published = 0; poisoned = 0 };
}

process_once-Covered_example : Covered env options (process_once env options start).1
unfolding is_zero lookup_checkpoint
process_once-Covered_example = process_once-Covered env options server-IsDocumented start (inl refl)

abbrev batch : List Group
batch = record { lsn = 0 ∷ 1 ∷ []; messages = envelope 1 ∷ envelope 2 ∷ [] } ∷ []

-- A batch of one: the transaction of two rows is read whole.
read-batch_of_one : read server no_faults [] 1 ≡ ok batch
unfolding read is_zero read_range compare read_page changes drop_partial last_lsn group_by_lsn
read-batch_of_one = refl

read-IsCut_example : IsCut (unread server []) (rows_of batch)
read-IsCut_example = read-IsCut server [] server-IsDocumented no_faults 1 batch read-batch_of_one

retry-poisoned_example :
    (is_poisoned 1 (retry env options (envelope 1) 2 start).failures ≡ true)
    × ((publish env options (envelope 1) (retry env options (envelope 1) 2 start)).0 ≡ ok true)
unfolding find_failure
retry-poisoned_example =
    retry-poisoned env options (envelope 1) (110 ∷ []) (λ n. refl) (λ n. refl) 1 start (omega arith)

process_groups-Progress_example :
    Progress env options start (process_groups env options batch start).1 batch
process_groups-Progress_example = process_groups-Progress env options batch start

rows_of-group_by_lsn_example : rows_of (group_by_lsn rows) ≡ rows
rows_of-group_by_lsn_example = rows_of-group_by_lsn rows

abbrev jitter : Jitter
jitter = record { share = λ d. d / 5; share_fifth = λ d. omega arith }

abbrev outcomes : List Outcome
outcomes =
    finished processed
    ∷ finished faulted
    ∷ failed database false
    ∷ failed database true
    ∷ finished faulted
    ∷ finished faulted
    ∷ finished faulted
    ∷ []

abbrev delays : Delays
delays = record { poll_interval = 1000; retry_base_delay = 1000; retry_max_delay = 60000 }

health-run_example : health (run delays jitter 0 outcomes) ≡ (
    if leb unhealthy_after (streak (reverse outcomes))
    then some (streak (reverse outcomes))
    else none)
health-run_example = health-run delays jitter outcomes
