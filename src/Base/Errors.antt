-- ===== src/Base/Errors.antt =====
-- The errors that the modelled code throws (packages/common/src/errors.ts), and results.
use Prim.Native.String.{String}
use mathlib.Core.Bool.{Bool}
use ryvan_os.Base.Tests.{if◌then◌else◌}

-- The constructors carry what a caller can branch on: the class and its subject, not the message.
pub data Error : Type 0 where
  validation_error : String → Error
  conflict_error : String → Error
  not_found_error : String → String → Error
  workflow_error : String → Error
  circuit_open_error : String → Error
  model_error : String → Error
  thrown : String → Error

-- A call that may throw one of these.
pub data Result {ℓ} (A : Type ℓ) : Type ℓ where
  throws : Error → Result A
  returns : A → Result A

infixl 5 ◌>>=◌ ◌>>◌
abbrev pub ◌>>=◌ {ℓ κ} : {A : Type ℓ} {B : Type κ} → Result A → (A → Result B) → Result B
throws failure >>= next = throws failure
returns value >>= next = next value

abbrev pub ◌>>◌ {ℓ} : {B : Type ℓ} → Result (Unit {0}) → Result B → Result B
throws failure >> next = throws failure
returns value >> next = next

-- `if (bad) throw e`.
abbrev pub throw_if : Bool → Error → Result (Unit {0})
throw_if bad failure = if bad then throws failure else returns tt

-- How a call of code outside the model ends: it returns a value, or throws with a message.
pub data Outcome {ℓ} (A : Type ℓ) : Type ℓ where
  returned : A → Outcome A
  threw : String → Outcome A
