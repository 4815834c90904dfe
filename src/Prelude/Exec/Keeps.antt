-- ===== src/Prelude/Exec/Keeps.antt =====
-- Invariants of methods, one rule for each way to build a method. Nothing is said of the state
-- after undefined behaviour.
use passdoq.Prelude.Tests.{if◌then◌else◌}
use mathlib.Core.Path.{◌≡◌, refl}
use mathlib.Core.Bool.{Bool, true, false}
use mathlib.Core.Option.{Option, none, some}
use passdoq.Prelude.Exec.{
  Error, Result, ok, throw, fault, Exec, pure, raise, gets, or_raise, or_undefined, try_catch,
  ◌>>=◌,
}

abbrev pub After : {S A : Type 0} → (S → Type 0) → Result A × S → Type 0
After P (ok a, s) = P s
After P (throw e, s) = P s
After P (fault, s) = Unit

-- `m` keeps `P`, whether it returns or throws.
pub record Keeps {S A : Type 0} (P : S → Type 0) (m : Exec S A) : Type 0 where
  pub at : (s : S) → P s → After P (m s)

module _ {S A : Type 0} (P : S → Type 0) where
  or_raise-After : (o : Option A) (e : Error) (s : S) → P s → After P (or_raise o e s)
  or_raise-After none e s h = h
  or_raise-After (some a) e s h = h

  or_undefined-After : (o : Option A) (s : S) → P s → After P (or_undefined o s)
  or_undefined-After none s h = tt
  or_undefined-After (some a) s h = h

  if-After :
      (b : Bool) (m n : Exec S A) (s : S)
      → After P (m s)
      → After P (n s)
      → After P ((if b then m else n) s)
  if-After true m n s h k = h
  if-After false m n s h k = k

module _ {S A : Type 0} {P : S → Type 0} where
  pub Keeps-pure : (a : A) → Keeps P (pure a)
  Keeps-pure a = record { at = λ s h. h }

  pub Keeps-raise : (e : Error) → Keeps P (raise {A = A} e)
  Keeps-raise e = record { at = λ s h. h }

  pub Keeps-gets : (f : S → A) → Keeps P (gets f)
  Keeps-gets f = record { at = λ s h. h }

  pub Keeps-or_raise : (o : Option A) (e : Error) → Keeps P (or_raise o e)
  Keeps-or_raise o e = record { at = or_raise-After P o e }

  pub Keeps-or_undefined : (o : Option A) → Keeps P (or_undefined o)
  Keeps-or_undefined o = record { at = or_undefined-After P o }

  pub Keeps-if : (b : Bool) (m n : Exec S A) → Keeps P m → Keeps P n → Keeps P (if b then m else n)
  Keeps-if b m n h k = record { at = λ s p. if-After P b m n s (h.at s p) (k.at s p) }

  pub handle-After :
      (h : Exec S A) (k : Keeps P h) (r : Result A) (s : S)
      → After P (r, s)
      → After P (try_catch (λ _. (r, s)) h s)
  handle-After h k (ok a) s p = p
  handle-After h k (throw e) s p = k.at s p
  handle-After h k fault s p = tt

  pub Keeps-try : (m h : Exec S A) → Keeps P m → Keeps P h → Keeps P (try_catch m h)
  Keeps-try m h km kh = record { at = λ s p. handle-After h kh (m s).0 (m s).1 (km.at s p) }

module _ {S A B : Type 0} {P : S → Type 0} where
  bind-After :
      (f : A → Exec S B) (k : (a : A) → Keeps P (f a)) (r : Result A) (s : S)
      → After P (r, s)
      → After P (((λ (_ : S). (r, s)) >>= f) s)
  bind-After f k (ok a) s p = (k a).at s p
  bind-After f k (throw e) s p = p
  bind-After f k fault s p = tt

  pub Keeps-bind :
      (m : Exec S A) (f : A → Exec S B) → Keeps P m → ((a : A) → Keeps P (f a)) → Keeps P (m >>= f)
  Keeps-bind m f km kf = record { at = λ s p. bind-After f kf (m s).0 (m s).1 (km.at s p) }

pub ruleset keeps_rules = (
  Keeps-pure, Keeps-raise, Keeps-gets, Keeps-or_raise, Keeps-or_undefined, Keeps-if, Keeps-try,
  Keeps-bind,
)

-- One step of a method where the rest needs more than the invariant.
module _ {S A B : Type 0} (P : S → Type 0) where
  pub or_undefined-bind :
      (o : Option A) (f : A → Exec S B) (s : S)
      → ((a : A) → o ≡ some a → After P (f a s))
      → After P ((or_undefined o >>= f) s)
  or_undefined-bind none f s h = tt
  or_undefined-bind (some a) f s h = h a refl
