-- ===== src/Ordering/Outbox/Worker.antt =====
-- internal/ordering/outbox/worker.go: what the worker makes of the outcome of a cycle.
use golang_microservices_eco.Prelude.{
  ℕ, suc, ◌+◌, ◌≡◌, refl, ap, ◌∙◌, List, [], ◌∷◌, Option, none, some, Bool, true, false, arith, leb,
  if◌then◌else◌,
}
use mathlib.Core.List.{reverse, reverse_aux}
use golang_microservices_eco.Platform.Backoff.{Jitter, backoff}
use golang_microservices_eco.Ordering.Outbox.Errors.{Error}
use golang_microservices_eco.Ordering.Outbox.Stores.{Status, idle, processed, faulted}

abbrev pub unhealthy_after : ℕ
unhealthy_after = 5

-- The delays of Options, in nanoseconds.
pub record Delays : Type 0 where
  pub poll_interval : ℕ
  pub retry_base_delay : ℕ
  pub retry_max_delay : ℕ

-- What ProcessOnce returned, and whether the context was done where it returned an error.
pub data Outcome : Type 0 where
  failed : Error → Bool → Outcome
  finished : Status → Outcome

-- cycle: the delay, and the number of consecutive failures.
unfoldable pub cycle : Delays → Jitter → Outcome → ℕ → ℕ × ℕ
cycle delays jitter (failed e true) failures = (0, failures)
cycle delays jitter (failed e false) failures =
    (backoff jitter delays.retry_base_delay delays.retry_max_delay (failures + 1), failures + 1)
cycle delays jitter (finished faulted) failures =
    (backoff jitter delays.retry_base_delay delays.retry_max_delay (failures + 1), failures + 1)
cycle delays jitter (finished processed) failures = (0, 0)
cycle delays jitter (finished idle) failures = (delays.poll_interval, 0)

-- Health: the number of failed cycles that it reports, if it reports any.
unfoldable pub health : ℕ → Option ℕ
health failures = if leb unhealthy_after failures then some failures else none

-- The failures after these outcomes, the latest last.
abbrev pub run : Delays → Jitter → ℕ → List Outcome → ℕ
run delays jitter failures [] = failures
run delays jitter failures (o ∷ os) = run delays jitter (cycle delays jitter o failures).1 os

-- How many cycles have failed since the last one that worked; one that the shutdown stopped is
-- neither. The list has the latest outcome first.
abbrev pub streak : List Outcome → ℕ
streak [] = 0
streak (failed e true ∷ os) = streak os
streak (failed e false ∷ os) = suc (streak os)
streak (finished faulted ∷ os) = suc (streak os)
streak (finished processed ∷ os) = 0
streak (finished idle ∷ os) = 0

cycle-streak :
    (delays : Delays) (jitter : Jitter) (o : Outcome) (past : List Outcome)
    → (cycle delays jitter o (streak past)).1 ≡ streak (o ∷ past)
unfolding cycle
cycle-streak delays jitter (failed e true) past = refl
cycle-streak delays jitter (failed e false) past = omega arith
cycle-streak delays jitter (finished faulted) past = omega arith
cycle-streak delays jitter (finished processed) past = refl
cycle-streak delays jitter (finished idle) past = refl

run-streak :
    (delays : Delays) (jitter : Jitter) (past outcomes : List Outcome)
    → run delays jitter (streak past) outcomes ≡ streak (reverse_aux outcomes past)
run-streak delays jitter past [] = refl
run-streak delays jitter past (o ∷ os) =
    ap (λ n. run delays jitter n os) (cycle-streak delays jitter o past)
    ∙ run-streak delays jitter (o ∷ past) os

-- The worker reports itself unhealthy exactly if at least five cycles have failed since the last
-- one that worked, and reports their number.
pub health-run :
    (delays : Delays) (jitter : Jitter) (outcomes : List Outcome)
    → health (run delays jitter 0 outcomes) ≡ (
        if leb unhealthy_after (streak (reverse outcomes))
        then some (streak (reverse outcomes))
        else none)
unfolding health
health-run delays jitter outcomes = rw (run-streak delays jitter [] outcomes)
