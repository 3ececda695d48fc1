-- ===== src/Prelude/Result.antt =====
-- Go's `error` values, and functions that return one.
use Prim.Native.Nat.{ℕ}
use Prim.Native.String.{String}
use mathlib.Core.Bool.{Bool, true, false}
use mathlib.Core.Path.{◌≡◌, refl}
use mathlib.Core.Logic.{◌⊎◌, inl, inr}

-- `message` is errors.New, `quoted` and `numbered` are messages with an argument, and `wrap` is
-- `fmt.Errorf("…: %w", err)`.
pub data Error : Type 0 where
  message : String → Error
  quoted : String → String → Error
  numbered : String → ℕ → Error
  wrap : String → Error → Error

-- A value, or the error that is returned in its place.
pub data Result {ℓ} (Value : Type ℓ) : Type ℓ where
  err : Error → Result Value
  ok : Value → Result Value

-- `if err != nil { return fmt.Errorf("…: %w", err) }`
abbrev pub within {ℓ} : {Value : Type ℓ} → String → Result Value → Result Value
within context (err cause) = err (wrap context cause)
within context (ok value) = ok value

-- `if fails { return e }`
abbrev pub reject : Bool → Error → Result (Unit {0})
reject false e = ok tt
reject true e = err e

-- `if err != nil { return err }` between two steps.
infixl 5 ◌>>=◌
abbrev pub ◌>>=◌ {ℓ κ} :
    {Value : Type ℓ} {Next : Type κ} → Result Value → (Value → Result Next) → Result Next
err cause >>= next = err cause
ok value >>= next = next value

infixl 5 ◌>>◌
abbrev pub ◌>>◌ {κ} : {Next : Type κ} → Result (Unit {0}) → Result Next → Result Next
step >> next = step >>= λ _. next

abbrev pub is_ok {ℓ} : {Value : Type ℓ} → Result Value → Bool
is_ok (err cause) = false
is_ok (ok value) = true

pub Result-cases {ℓ} :
    {Value : Type ℓ} (r : Result Value) → ((v : Value) × (r ≡ ok v)) ⊎ ((e : Error) × (r ≡ err e))
Result-cases (err cause) = inr (cause, refl)
Result-cases (ok value) = inl (value, refl)

-- A step that is followed by another and succeeds has succeeded itself.
pub >>=-eq-ok {ℓ κ} :
    {Value : Type ℓ} {Next : Type κ} (r : Result Value) (next : Value → Result Next) {n : Next}
    → (r >>= next) ≡ ok n
    → (v : Value) × (r ≡ ok v) × (next v ≡ ok n)
>>=-eq-ok (err cause) next h = cc
>>=-eq-ok (ok value) next h = (value, refl, h)
