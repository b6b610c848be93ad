-- ===== src/Gateway/Ratelimit.antt =====
-- internal/gateway/ratelimit.go. Times and durations are nanoseconds; `now - last_sweep` stops at
-- 0 where the source's difference is negative, and both are then below a window. The map of
-- callers is a function, and the mutex makes each call one step.
pub mod Told
pub mod Window
use golang_microservices_eco.Prelude.{
  ℕ, zero, suc, ◌+◌, ◌-◌, ◌/◌, String, Option, none, some, Bool, true, false, ltb, leb,
  if◌then◌else◌, str_eq, ℤ, pos, is_nonpositive, pos_part,
}

abbrev default_limit : ℕ
default_limit = 5

abbrev default_window : ℕ
default_window = 10000000000

-- counter.
pub record Counter : Type 0 where
  pub count : ℕ
  pub window_end : ℕ

pub record FixedWindow : Type 0 where
  pub limit : ℕ
  pub window : ℕ
  pub callers : String → Option Counter
  pub last_sweep : ℕ

unfoldable pub new_fixed_window : ℤ → ℤ → ℕ → FixedWindow
new_fixed_window limit window now = record {
  limit = if is_nonpositive limit then default_limit else pos_part limit;
  window = if is_nonpositive window then default_window else pos_part window;
  callers = λ caller. none;
  last_sweep = now;
}

-- The deletion of the callers whose window has passed.
unfoldable pub alive : ℕ → Option Counter → Option Counter
alive now none = none
alive now (some current) = if ltb current.window_end now then none else some current

unfoldable pub sweep : ℕ → FixedWindow → FixedWindow
sweep now f =
    if ltb (now - f.last_sweep) f.window
    then f
    else record f { callers = λ caller. alive now (f.callers caller); last_sweep = now }

unfoldable pub put : String → Counter → FixedWindow → FixedWindow
put caller c f = record f {
  callers = λ other. if str_eq other caller then some c else f.callers other;
}

-- allow behind the sweep: the verdict with the delay, and the limiter.
unfoldable pub admit : String → ℕ → Option Counter → FixedWindow → (Bool × ℕ) × FixedWindow
admit caller now none f =
    ((true, 0), put caller (record { count = 1; window_end = now + f.window }) f)
admit caller now (some current) f =
    if ltb current.window_end now
    then ((true, 0), put caller (record { count = 1; window_end = now + f.window }) f)
    else if leb f.limit current.count
    then ((false, current.window_end - now), f)
    else ((true, 0), put caller (record current { count = suc current.count }) f)

unfoldable pub allow : String → ℕ → FixedWindow → (Bool × ℕ) × FixedWindow
allow caller now f = admit caller now ((sweep now f).callers caller) (sweep now f)

-- The Retry-After header of a delay, in seconds; a float64 keeps the nanoseconds of a delay here.
unfoldable pub retry_after : ℕ → ℕ
retry_after delay = (delay + 500000000) / 1000000000

-- What Middleware does with a request: it passes it on, or it refuses it with a Retry-After.
unfoldable pub respond : (Bool × ℕ) × FixedWindow → Option ℕ × FixedWindow
unfolding retry_after
respond ((true, delay), f) = (none, f)
respond ((false, delay), f) = (some (retry_after delay), f)

unfoldable pub middleware : String → ℕ → FixedWindow → Option ℕ × FixedWindow
unfolding respond allow
middleware caller now f = respond (allow caller now f)
