-- ===== src/Base/Results.antt =====
-- `Result` and the operator `?` as a bind.
use mathlib.Core.Path.{◌≡◌, refl}
use mathlib.Core.Logic.{◌⊎◌, inl, inr}

pub data Result {ℓ κ} (E : Type ℓ) (A : Type κ) : Type (ℓ ⊔ κ) where
  err : E → Result E A
  ok : A → Result E A

module _ {ℓ κ} {E : Type ℓ} {A : Type κ} where
  infixl 5 ◌>>=◌ ◌>>◌
  abbrev pub ◌>>=◌ {μ} : {B : Type μ} → Result E A → (A → Result E B) → Result E B
  ◌>>=◌ (err problem) next = err problem
  ◌>>=◌ (ok value) next = next value

  abbrev pub ◌>>◌ {μ} : {B : Type μ} → Result E A → Result E B → Result E B
  step >> next = step >>= λ _. next

  -- `Result::map_err`.
  abbrev pub map_err {μ} : {F : Type μ} → (E → F) → Result E A → Result F A
  map_err wrap (err problem) = err (wrap problem)
  map_err wrap (ok value) = ok value

  pub Result-cases :
      (r : Result E A) → ((value : A) × (r ≡ ok value)) ⊎ ((problem : E) × (r ≡ err problem))
  Result-cases (ok value) = inl (value, refl)
  Result-cases (err problem) = inr (problem, refl)
