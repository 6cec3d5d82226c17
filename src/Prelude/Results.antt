-- ===== src/Prelude/Results.antt =====
-- Exceptions as values, and the monad of code that changes state and may throw: a throw keeps the
-- state that was reached, since JavaScript rolls nothing back.
use mathlib.Core.Path.{◌≡◌, refl}
use mathlib.Core.Logic.{◌⊎◌, ◌↔◌, inl, inr}

pub data Result {ℓ κ} (E : Type ℓ) (A : Type κ) : Type (ℓ ⊔ κ) where
  ok : A → Result E A
  err : E → Result E A

module _ {ℓ κ} {E : Type ℓ} {A : Type κ} where
  pub Result-cases : (r : Result E A) → ((a : A) × (r ≡ ok a)) ⊎ ((e : E) × (r ≡ err e))
  Result-cases (ok a) = inl (a, refl)
  Result-cases (err e) = inr (e, refl)

infixl 10 ◌>>=◌
abbrev pub ◌>>=◌ {ℓ κ μ} :
    {E : Type ℓ} {A : Type κ} {B : Type μ} → Result E A → (A → Result E B) → Result E B
ok a >>= f = f a
err e >>= f = err e

-- Both parts of a chain that gives a value have given one.
pub bind-ok_iff :
    {E A B : Type 0} (m : Result E A) (f : A → Result E B) (b : B)
    → ((m >>= f) ≡ ok b) ↔ ((a : A) × (m ≡ ok a) × (f a ≡ ok b))
bind-ok_iff (ok a) f b = (λ h. (a, refl, h), λ (a', same, h). cc)
bind-ok_iff (err e) f b = (λ h. cc, λ (a, bad, h). cc)
