-- ===== src/Ordering/Outbox/Errors.antt =====
-- internal/ordering/outbox/errors.go, and the other errors that a cycle of the worker can end with.
pub use golang_microservices_eco.Prelude.{ok, err, ◌>>=◌, >>=-eq-ok, ok-injective, err≢ok}
use golang_microservices_eco.Prelude.{Fallible}
use golang_microservices_eco.Ordering.Outbox.Lsn.{Lsn}

-- `database` is an error of the SQL driver, `stopped` that of the cancelled context.
pub data Error : Type 0 where
  batch_size_not_positive empty_checkpoint database stopped : Error
  not_ready : Error
  checkpoint_expired : Lsn → Lsn → Error

abbrev pub Result {ℓ} : Type ℓ → Type ℓ
Result A = Fallible Error A
