-- ===== src/Prelude/Exec.antt =====
-- Methods that change a state and may throw. What was written before a throw stays written, so
-- the state comes back beside the error. `fault` is undefined behaviour (a null pointer that is
-- read, an access past the end of a buffer): no handler catches it.
pub mod Keeps
use Prim.Native.Nat.{ℕ}
use mathlib.Core.Path.{◌≡◌, refl}
use mathlib.Core.Bool.{Bool, true, false}
use mathlib.Core.Option.{Option, none, some}
use passdoq.Prelude.Text.{Text}

-- The standard exceptions, and those of the third-party libraries.
pub data Error : Type 0 where
  runtime_error : Text → Error
  invalid_argument : Text → Error
  library_error : Error

pub data Result {ℓ} (A : Type ℓ) : Type ℓ where
  ok : A → Result A
  throw : Error → Result A
  fault : Result A

-- Whether a method came to its end, and whether it ran into undefined behaviour.
abbrev pub returns {ℓ} : {A : Type ℓ} → Result A → Bool
returns (ok a) = true
returns (throw e) = false
returns fault = false

abbrev pub is_defined {ℓ} : {A : Type ℓ} → Result A → Bool
is_defined (ok a) = true
is_defined (throw e) = true
is_defined fault = false

abbrev pub Exec : Type 0 → Type 0 → Type 0
Exec S A = S → Result A × S

module _ {S A : Type 0} where
  abbrev pub pure : A → Exec S A
  pure a s = (ok a, s)

  abbrev pub raise : Error → Exec S A
  raise e s = (throw e, s)

  abbrev pub undefined : Exec S A
  undefined s = (fault, s)

  abbrev pub gets : (S → A) → Exec S A
  gets f s = (ok (f s), s)

  -- The value, or the exception.
  abbrev pub or_raise : Option A → Error → Exec S A
  or_raise none e s = (throw e, s)
  or_raise (some a) e s = (ok a, s)

  abbrev pub or_undefined : Option A → Exec S A
  or_undefined none s = (fault, s)
  or_undefined (some a) s = (ok a, s)

  -- `try { m } catch (const std::exception&) { h }`
  abbrev handle : Exec S A → Result A × S → Result A × S
  handle h (ok a, s) = (ok a, s)
  handle h (throw e, s) = h s
  handle h (fault, s) = (fault, s)

  abbrev pub try_catch : Exec S A → Exec S A → Exec S A
  try_catch m h s = handle h (m s)

module _ {S A B : Type 0} where
  abbrev continue : (A → Exec S B) → Result A × S → Result B × S
  continue f (ok a, s) = f a s
  continue f (throw e, s) = (throw e, s)
  continue f (fault, s) = (fault, s)

  infixl 5 ◌>>=◌ ◌>>◌
  abbrev pub ◌>>=◌ : Exec S A → (A → Exec S B) → Exec S B
  ◌>>=◌ m f s = continue f (m s)

  abbrev pub ◌>>◌ : Exec S A → Exec S B → Exec S B
  m >> k = m >>= λ _. k

abbrev pub modify : {S : Type 0} → (S → S) → Exec S (Unit {0})
modify f s = (ok tt, f s)
