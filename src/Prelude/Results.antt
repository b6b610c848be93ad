-- ===== src/Prelude/Results.antt =====
-- A call that returns a value or fails with an error of its component.
use mathlib.Core.Path.{◌≡◌, refl}
use mathlib.Core.Logic.{◌⊎◌, inl, inr}

pub data Fallible {ℓ} (Error : Type 0) (Value : Type ℓ) : Type ℓ where
  err : Error → Fallible Error Value
  ok : Value → Fallible Error Value

-- What becomes of a write: it goes through, or it is lost with an error, or it goes through and an
-- error is reported, since its answer was lost.
pub data Write : Type 0 where
  written lost unconfirmed : Write

infixl 5 ◌>>=◌
abbrev pub ◌>>=◌ {ℓ κ} :
    {Error : Type 0} {Value : Type ℓ} {Next : Type κ}
    → Fallible Error Value
    → (Value → Fallible Error Next)
    → Fallible Error Next
err cause >>= next = err cause
ok v >>= next = next v

module _ {Error : Type 0} where
  pub ok-injective {ℓ} :
      {Value : Type ℓ} {v w : Value} → ◌≡◌ {A = Fallible Error Value} (ok v) (ok w) → v ≡ w
  ok-injective e = cc

  pub Fallible-cases {ℓ} :
      {Value : Type ℓ} (r : Fallible Error Value)
      → ((cause : Error) × (r ≡ err cause)) ⊎ ((v : Value) × (r ≡ ok v))
  Fallible-cases (err cause) = inl (cause, refl)
  Fallible-cases (ok v) = inr (v, refl)

  -- Where a sequence succeeds, its parts have.
  pub >>=-eq-ok {ℓ κ} :
      {Value : Type ℓ} {Next : Type κ} (first : Fallible Error Value)
      (next : Value → Fallible Error Next) {w : Next}
      → (first >>= next) ≡ ok w
      → (v : Value) × (first ≡ ok v) × (next v ≡ ok w)
  >>=-eq-ok (err cause) next e = cc
  >>=-eq-ok (ok v) next e = (v, refl, e)

  pub err≢ok {ℓ κ} :
      {Value : Type ℓ} {Goal : Type κ} {cause : Error} {v : Value}
      → ◌≡◌ {A = Fallible Error Value} (err cause) (ok v)
      → Goal
  err≢ok e = cc
