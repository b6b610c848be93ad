-- ===== src/Gateway/Ratelimit/Told.antt =====
-- internal/gateway/ratelimit.go: the Retry-After header of a refusal.
use golang_microservices_eco.Prelude.{
  ℕ, ◌+◌, ◌*◌, ◌≤◌, ◌<◌, ◌≡◌, refl, arith, Bool, true, false, String, none, some, subst,
}
use golang_microservices_eco.Gateway.Ratelimit.{
  FixedWindow, allow, middleware, respond, retry_after,
}
use golang_microservices_eco.Gateway.Ratelimit.Window.{allow_after_delay}

respond-refused :
    (r : (Bool × ℕ) × FixedWindow) (told : ℕ)
    → (respond r).0 ≡ some told
    → (r.0.0 ≡ false) × (retry_after r.0.1 ≡ told) × ((respond r).1 ≡ r.1)
unfolding respond
respond-refused ((true, delay), f) told h = cc
respond-refused ((false, delay), f) told h = (refl, cc, refl)

respond-allowed : (r : (Bool × ℕ) × FixedWindow) → r.0.0 ≡ true → (respond r).0 ≡ none
unfolding respond
respond-allowed ((true, delay), f) h = refl
respond-allowed ((false, delay), f) h = cc

retry_after-lt : (delay : ℕ) → delay < retry_after delay * 1000000000 + 500000000
unfolding retry_after
retry_after-lt delay = omega arith

-- A caller who is refused with a Retry-After of some seconds and asks again at least those seconds
-- and half a second later is not refused: the header is rounded to the nearest second, and so it
-- can be half a second short.
pub middleware_after_told :
    (caller : String) (now later told : ℕ) (f : FixedWindow)
    → (middleware caller now f).0 ≡ some told
    → now + (told * 1000000000 + 500000000) ≤ later
    → (middleware caller later (middleware caller now f).1).0 ≡ none
unfolding middleware
middleware_after_told caller now later told f refused waited =
    let (denied, header, same) = respond-refused (allow caller now f) told refused in
    let near = retry_after-lt (allow caller now f).0.1 in
    let near' : (allow caller now f).0.1 < told * 1000000000 + 500000000 =
      subst (λ t. (allow caller now f).0.1 < t * 1000000000 + 500000000) header near in
    rw same (
      respond-allowed (allow caller later (allow caller now f).1)
        (allow_after_delay caller now later f denied (omega arith)))
