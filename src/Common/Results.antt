-- ===== src/Common/Results.antt =====
-- Go's pair of a value and an error, with the error's cause as a value.
use mathlib.Core.Path.{◌≡◌, refl}
use mathlib.Core.Logic.{◌⊎◌, inl, inr}

-- A failed step, or a value that goes on.
pub data Result {ℓ} (Error : Type ℓ) (Value : Type ℓ) : Type ℓ where
  err : Error → Result Error Value
  ok : Value → Result Error Value

module _ {ℓ} {Error : Type ℓ} where
  infixl 5 ◌>>=◌
  -- `if err != nil { return err }`
  abbrev pub ◌>>=◌ :
      {Value Next : Type ℓ} → Result Error Value → (Value → Result Error Next) → Result Error Next
  err cause >>= next = err cause
  ok value >>= next = next value

  pub Result-cases :
      {Value : Type ℓ} (r : Result Error Value)
      → ((cause : Error) × (r ≡ err cause)) ⊎ ((value : Value) × (r ≡ ok value))
  Result-cases (err cause) = inl (cause, refl)
  Result-cases (ok value) = inr (value, refl)

  pub ok_inj : {Value : Type ℓ} {v w : Value} → ◌≡◌ {A = Result Error Value} (ok v) (ok w) → v ≡ w
  ok_inj h = cc
