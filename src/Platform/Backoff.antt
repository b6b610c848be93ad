-- ===== src/Platform/Backoff.antt =====
-- The delay that internal/ordering/outbox/worker.go and internal/basket/outbox/outbox.go compute
-- after failures, in nanoseconds. The source computes in float64, exactly at the sizes in use: a
-- delay below 2^43 doubled at most ten times. The jitter is what the random source adds, a
-- parameter of at most a fifth of the delay.
use golang_microservices_eco.Prelude.{ℕ, zero, suc, ◌+◌, ◌-◌, ◌*◌, ◌^◌, ◌≤◌, min, arith}
use native.Mathlib.Nat.{pow-suc}

abbrev max_exponent : ℕ
max_exponent = 10

-- `min(base * 2^min(n-1, maxExponent), max)`.
base_delay : ℕ → ℕ → ℕ → ℕ
base_delay base max n = min (base * 2 ^ min (n - 1) max_exponent) max

-- The random share of a delay.
pub record Jitter : Type 0 where
  pub share : ℕ → ℕ
  pub share_fifth : (d : ℕ) → 5 * share d ≤ d

unfoldable pub backoff : Jitter → ℕ → ℕ → ℕ → ℕ
unfolding base_delay
backoff jitter base max n = base_delay base max n + jitter.share (base_delay base max n)

pow-pos : (n : ℕ) → 1 ≤ 2 ^ n
pow-pos zero = omega arith
pow-pos (suc n) = rw pow-suc (omega (arith, pow-pos n))

-- The delay is at least the first delay, or the ceiling where that is less, and at most the ceiling
-- and a fifth of it.
backoff_bounds :
    (jitter : Jitter) (base max n : ℕ)
    → (min base max ≤ backoff jitter base max n) × (5 * backoff jitter base max n ≤ 6 * max)
unfolding backoff base_delay
backoff_bounds jitter base max n = (
  grind (arith, pow-pos (min (n - 1) max_exponent)),
  omega (arith, jitter.share_fifth (min (base * 2 ^ min (n - 1) max_exponent) max)),
)
