-- ===== src/Base/Outcomes.antt =====
-- How a kernel function ends: with a value, in `panic`, or in a read or write through a null
-- pointer.
use mathlib.Core.Path.{◌≡◌, refl}
use mathlib.Core.Logic.{◌⊎◌, inl, inr}

pub data Outcome {ℓ} (A : Type ℓ) : Type ℓ where
  ok : A → Outcome A
  panic : Outcome A
  fault : Outcome A

infixl 5 ◌>>=◌
abbrev pub ◌>>=◌ {ℓ κ} : {A : Type ℓ} {B : Type κ} → Outcome A → (A → Outcome B) → Outcome B
ok a >>= f = f a
panic >>= f = panic
fault >>= f = fault

-- A result, or none.
pub Outcome-cases {ℓ} :
    {A : Type ℓ} (m : Outcome A) → ((a : A) × (m ≡ ok a)) ⊎ ((m ≡ panic) ⊎ (m ≡ fault))
Outcome-cases (ok a) = inl (a, refl)
Outcome-cases panic = inr (inl refl)
Outcome-cases fault = inr (inr refl)
