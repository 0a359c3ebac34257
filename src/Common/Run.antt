-- ===== src/Common/Run.antt =====
-- What a call of the server comes to. `terminated` is an exception that nothing catches: it leaves
-- `io_context::run` and ends the process. `out_of_fuel` is no behaviour of the program.
use mathlib.Core.Option.{Option, none, some}

pub data Run {ℓ} (A : Type ℓ) : Type ℓ where
  done : A → Run A
  terminated out_of_fuel : Run A

infixl 5 ◌>>=◌
abbrev pub ◌>>=◌ {ℓ κ} : {A : Type ℓ} {B : Type κ} → Run A → (A → Run B) → Run B
done a >>= f = f a
terminated >>= f = terminated
out_of_fuel >>= f = out_of_fuel

-- A library call that throws.
abbrev pub catchless {ℓ} : {A : Type ℓ} → Option A → Run A
catchless none = terminated
catchless (some a) = done a

-- `P` holds of the result, if there is one, and fuel did not run out.
abbrev pub Ensures {ℓ} : {A : Type ℓ} → (A → Type 0) → Run A → Type 0
Ensures P (done a) = P a
Ensures P terminated = Unit
Ensures P out_of_fuel = ⊥
