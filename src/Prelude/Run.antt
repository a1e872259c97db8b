-- ===== src/Prelude/Run.antt =====
-- Code that ends with a result, with an error, or in undefined behaviour.
use mathlib.Core.Option.{Option, none, some}
use mathlib.Core.Bool.{Bool, true, false}
use mathlib.Core.Path.{◌≡◌, refl}

pub data Run {ℓ} (A : Type ℓ) : Type ℓ where
  returns : A → Run A
  fails : Run A
  crashes : Run A

infixl 5 ◌>>=◌ ◌>>◌
abbrev pub ◌>>=◌ {ℓ κ} : {A : Type ℓ} {B : Type κ} → Run A → (A → Run B) → Run B
returns a >>= f = f a
fails >>= f = fails
crashes >>= f = crashes

abbrev pub ◌>>◌ {ℓ} : {B : Type ℓ} → Run (Unit {0}) → Run B → Run B
m >> k = m >>= λ _. k

-- `if (!test) return LIBDBO_ERROR_UNKNOWN;`
abbrev pub require : Bool → Run (Unit {0})
require true = returns tt
require false = fails

-- `if (!p) return LIBDBO_ERROR_UNKNOWN;`
abbrev pub given {ℓ} : {A : Type ℓ} → Option A → Run A
given none = fails
given (some a) = returns a

-- The use of a pointer that is not tested.
abbrev pub used {ℓ} : {A : Type ℓ} → Option A → Run A
used none = crashes
used (some a) = returns a

-- Inversion of a sequence that returns.
pub >>=-eq-returns {ℓ κ} :
    {A : Type ℓ} {B : Type κ} (m : Run A) (f : A → Run B) {b : B}
    → (m >>= f) ≡ returns b
    → (a : A) × (m ≡ returns a) × (f a ≡ returns b)
>>=-eq-returns (returns a) f h = (a, refl, h)
>>=-eq-returns fails f h = cc
>>=-eq-returns crashes f h = cc
