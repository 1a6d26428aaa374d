-- ===== src/Prelude/Run.antt =====
-- What a run of a C function comes to: a value, the end of the process by a failed assertion or
-- err(), or, in the model only, a loop that has used up its fuel.
use mathlib.Core.Path.{◌≡◌, refl}

pub data Run {ℓ} (A : Type ℓ) : Type ℓ where
  done : A → Run A
  abort : Run A
  out_of_fuel : Run A

infixl 5 ◌>>=◌ ◌>>◌
abbrev pub ◌>>=◌ {ℓ κ} : {A : Type ℓ} {B : Type κ} → Run A → (A → Run B) → Run B
done a >>= f = f a
abort >>= f = abort
out_of_fuel >>= f = out_of_fuel

abbrev pub ◌>>◌ {ℓ κ} : {A : Type ℓ} {B : Type κ} → Run A → Run B → Run B
m >> k = m >>= λ _. k

-- To split on the outcome of a call and keep the equation.
pub data Outcome {ℓ} {A : Type ℓ} (r : Run A) : Type ℓ where
  is_done : (a : A) → r ≡ done a → Outcome r
  is_abort : r ≡ abort → Outcome r
  is_out_of_fuel : r ≡ out_of_fuel → Outcome r

pub outcome {ℓ} : {A : Type ℓ} (r : Run A) → Outcome r
outcome (done a) = is_done a refl
outcome abort = is_abort refl
outcome out_of_fuel = is_out_of_fuel refl
