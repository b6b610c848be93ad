-- ===== src/Ordering/Outbox/Stores.antt =====
-- internal/ordering/outbox: checkpoint.go and failures.go, the tables behind them and the broker.
-- The environment decides what each external call meets: `calls` numbers the calls of a run. The
-- timestamps of the rows are left out.
use golang_microservices_eco.Prelude.{
  ℕ, suc, ◌+◌, String, List, [], ◌∷◌, Bool, true, false, ◌==◌, str_eq, if◌then◌else◌, take, ◌≡◌,
  refl, subst, ltb, length,
}
use golang_microservices_eco.Platform.Messaging.{Envelope}
use golang_microservices_eco.Ordering.Outbox.Lsn.{Lsn, is_zero}
use golang_microservices_eco.Ordering.Outbox.Errors.{
  Error, Result, ok, err, empty_checkpoint, database, stopped, ok-injective,
}
use golang_microservices_eco.Ordering.Outbox.Reader.{Server, Faults, Group, read}

-- What becomes of a publish: accepted, refused with an error text, accepted although the answer was
-- lost and an error is reported, or given up with the context.
pub data Answer : Type 0 where
  accepted : Answer
  refused : List ℕ → Answer
  lost : List ℕ → Answer
  cancelled : Answer

pub record Env : Type 0 where
  pub server : Server
  pub read_faults : ℕ → Faults
  pub database_fails : ℕ → Bool
  pub context_done : ℕ → Bool
  pub broker : ℕ → Envelope → Answer

-- A row of OutboxPublishFailures; `poisoned` is that PoisonedOnUtc is set.
pub record FailureRow : Type 0 where
  pub message_id : ℕ
  pub attempts : ℕ
  pub last_error : List ℕ
  pub poisoned : Bool

-- The outcomes of a cycle.
pub data Status : Type 0 where
  idle processed faulted : Status

pub record CycleResult : Type 0 where
  pub status : Status
  pub published : ℕ
  pub poisoned : ℕ

-- The two tables, what the broker has accepted in order, and the result of the running cycle.
pub record World : Type 0 where
  pub calls : ℕ
  pub checkpoints : List (String × Lsn)
  pub failures : List FailureRow
  pub accepted_messages : List Envelope
  pub result : CycleResult

abbrev pub Exec : Type 0 → Type 0
Exec A = World → Result A × World

abbrev pub pure : {A : Type 0} → A → Exec A
pure a w = (ok a, w)

abbrev pub raise : {A : Type 0} → Error → Exec A
raise e w = (err e, w)

abbrev pub and_then : {A B : Type 0} → Result A × World → (A → Exec B) → Result B × World
and_then (ok a, w) f = f a w
and_then (err e, w) f = (err e, w)

infixl 5 ◌>>=◌ ◌>>◌
abbrev pub ◌>>=◌ : {A B : Type 0} → Exec A → (A → Exec B) → Exec B
◌>>=◌ m f w = and_then (m w) f

abbrev pub ◌>>◌ : {B : Type 0} → Exec (Unit {0}) → Exec B → Exec B
m >> k = m >>= λ _. k

-- Where the action returns, its result and the world it leaves are as said.
pub record Ensures {A : Type 0} (P : A → World → Type 0) (r : Result A × World) : Type 0 where
  pub holds : (a : A) → r.0 ≡ ok a → P a r.1

pub Ensures-bind :
    {A B : Type 0} (P : A → World → Type 0) (Q : B → World → Type 0) (m : Exec A) (f : A → Exec B)
    (w : World)
    → Ensures P (m w)
    → ((a : A) (v : World) → P a v → Ensures Q (f a v))
    → Ensures Q ((m >>= f) w)
Ensures-bind {A} {B} P Q m f w p q = go (m w) p
  where
    go : (r : Result A × World) → Ensures P r → Ensures Q (and_then r f)
    go (ok a, v) p = q a v (p.holds a refl)
    go (err e, v) p = record { holds = λ b h. cc }

Ensures-ok : {A : Type 0} (P : A → World → Type 0) (a : A) (w : World) → P a w → Ensures P (ok a, w)
Ensures-ok P a w h = record { holds = λ b e. subst (λ x. P x w) (ok-injective e) h }

abbrev pub next_call : World → World
next_call w = record w { calls = suc w.calls }

unfoldable pub lookup_checkpoint : String → List (String × Lsn) → Lsn
lookup_checkpoint consumer [] = []
lookup_checkpoint consumer ((name, lsn) ∷ rows) =
    if str_eq name consumer then lsn else lookup_checkpoint consumer rows

unfoldable pub upsert_checkpoint : String → Lsn → List (String × Lsn) → List (String × Lsn)
upsert_checkpoint consumer lsn [] = (consumer, lsn) ∷ []
upsert_checkpoint consumer lsn ((name, old) ∷ rows) =
    if str_eq name consumer
    then (name, lsn) ∷ rows
    else (name, old) ∷ upsert_checkpoint consumer lsn rows

-- Failure: what Get returns.
pub record Failure : Type 0 where
  pub attempts : ℕ
  pub poisoned : Bool

unfoldable pub find_failure : ℕ → List FailureRow → Failure
find_failure id [] = record { attempts = 0; poisoned = false }
find_failure id (row ∷ rows) =
    if row.message_id == id
    then record { attempts = row.attempts; poisoned = row.poisoned }
    else find_failure id rows

abbrev max_recorded_error : ℕ
max_recorded_error = 2000

-- `reason[:maxRecordedError]`.
unfoldable pub bound_reason : List ℕ → List ℕ
bound_reason reason =
    if ltb max_recorded_error (length reason) then take max_recorded_error reason else reason

-- The MERGE of RecordFailure.
unfoldable pub count_failure : ℕ → List ℕ → List FailureRow → List FailureRow
count_failure id reason [] =
    record { message_id = id; attempts = 1; last_error = reason; poisoned = false } ∷ []
count_failure id reason (row ∷ rows) =
    if row.message_id == id
    then record row { attempts = row.attempts + 1; last_error = reason } ∷ rows
    else row ∷ count_failure id reason rows

-- The UPDATE of MarkPoisoned.
unfoldable pub poison_failure : ℕ → List FailureRow → List FailureRow
poison_failure id [] = []
poison_failure id (row ∷ rows) =
    if row.message_id == id
    then record row { poisoned = true } ∷ rows
    else row ∷ poison_failure id rows

module _ (env : Env) where
  -- CheckpointStore.Load; no row is the nil LSN.
  unfoldable pub load : String → Exec Lsn
  unfolding lookup_checkpoint
  load consumer w =
      if env.database_fails w.calls
      then (err database, next_call w)
      else (ok (lookup_checkpoint consumer w.checkpoints), next_call w)

  -- CheckpointStore.Save.
  unfoldable pub save : String → Lsn → Exec (Unit {0})
  unfolding is_zero upsert_checkpoint
  save consumer lsn w =
      if is_zero lsn
      then (err empty_checkpoint, w)
      else if env.database_fails w.calls
      then (err database, next_call w)
      else (
        ok tt,
        record w {
          calls = suc w.calls;
          checkpoints = upsert_checkpoint consumer lsn w.checkpoints;
        },
      )

  -- FailureStore.Get.
  unfoldable pub get_failure : ℕ → Exec Failure
  unfolding find_failure
  get_failure id w =
      if env.database_fails w.calls
      then (err database, next_call w)
      else (ok (find_failure id w.failures), next_call w)

  -- FailureStore.RecordFailure: the new number of attempts.
  unfoldable pub record_failure : ℕ → List ℕ → Exec ℕ
  unfolding find_failure count_failure bound_reason
  record_failure id reason w =
      if env.database_fails w.calls
      then (err database, next_call w)
      else let rows = count_failure id (bound_reason reason) w.failures in
        (ok (find_failure id rows).attempts, record w { calls = suc w.calls; failures = rows })

  -- FailureStore.MarkPoisoned.
  unfoldable pub mark_poisoned : ℕ → Exec (Unit {0})
  unfolding poison_failure
  mark_poisoned id w =
      if env.database_fails w.calls
      then (err database, next_call w)
      else (ok tt, record w { calls = suc w.calls; failures = poison_failure id w.failures })

  -- ChangeReader.Read.
  unfoldable pub read_batch : Lsn → ℕ → Exec (List Group)
  unfolding read
  read_batch after batch_size w =
      (read env.server (env.read_faults w.calls) after batch_size, next_call w)

  -- The test of ctx.Err between two messages.
  unfoldable pub check_context : Exec (Unit {0})
  check_context w =
      if env.context_done w.calls then (err stopped, next_call w) else (ok tt, next_call w)
