-- ===== src/Prelude/Options.antt =====
-- The monad of code that may give nothing.
use mathlib.Core.Option.{Option, none, some}

-- `abbrev`, so that a chain computes wherever it stands.
infixl 5 ◌>>=◌
abbrev pub ◌>>=◌ {ℓ κ} : {A : Type ℓ} {B : Type κ} → Option A → (A → Option B) → Option B
none >>= f = none
some a >>= f = f a

abbrev pub get_or {ℓ} : {A : Type ℓ} → Option A → A → A
get_or none d = d
get_or (some a) d = a
