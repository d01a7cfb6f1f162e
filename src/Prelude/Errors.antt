-- ===== src/Prelude/Errors.antt =====
-- Python exceptions that the modelled code raises, and the results of code that may raise.
use mathlib.Core.Bool.{Bool, true, false}

pub data Exn : Type 0 where
  type_error value_error lookup_error runtime_error : Exn
  rcm_error conflict_error busy_error stale_error rejected_error : Exn
  unavailable_error unsupported_error permission_denied_error : Exn
  runtime_lifecycle_error runtime_cancelled_error runtime_start_error : Exn
  runtime_shutdown_error : Exn
  keyboard_interrupt : Exn
  -- The model's own: a loop was given too few rounds.
  out_of_fuel : Exn

pub data Result {ℓ} (A : Type ℓ) : Type ℓ where
  ok : A → Result A
  err : Exn → Result A

infixl 5 ◌>>=◌ ◌>>◌
abbrev pub ◌>>=◌ {ℓ κ} : {A : Type ℓ} {B : Type κ} → Result A → (A → Result B) → Result B
ok a >>= f = f a
err e >>= f = err e

abbrev pub ◌>>◌ {ℓ κ} : {A : Type ℓ} {B : Type κ} → Result A → Result B → Result B
m >> k = m >>= λ _. k

-- if not test: raise e
abbrev pub guard : Bool → Exn → Result (Unit {0})
guard true e = ok tt
guard false e = err e
