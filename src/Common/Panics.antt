-- ===== src/Common/Panics.antt =====
-- What a Go function that may panic comes to.
use onyxia_backend.Common.Errors.{Result, ok, err}
use mathlib.Core.Path.{◌≡◌, refl}
use mathlib.Core.Logic.{◌⊎◌, inl, inr}

pub data Outcome {ℓ} (A : Type ℓ) : Type ℓ where
  returned : Result A → Outcome A
  panicked : Outcome A

-- A step on what was returned; a panic goes through.
abbrev pub then_return {ℓ κ} : {A : Type ℓ} {B : Type κ} → (A → Result B) → Outcome A → Outcome B
then_return f panicked = panicked
then_return f (returned (err e)) = returned (err e)
then_return f (returned (ok a)) = returned (f a)

pub Outcome-cases {ℓ} :
    {A : Type ℓ} (o : Outcome A) → (o ≡ panicked) ⊎ ((r : Result A) × (o ≡ returned r))
Outcome-cases panicked = inl refl
Outcome-cases (returned r) = inr (r, refl)
