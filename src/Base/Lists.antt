-- ===== src/Base/Lists.antt =====
-- Lists measured by native numbers.
use Prim.Native.Nat.{ℕ, zero, suc, ◌+◌, ◌<◌}
use mathlib.Core.Path.{◌≡◌, refl, ap}
use mathlib.Core.List.{List, [], ◌∷◌, ◌++◌}
use native.Mathlib.Omega.{arith}

module _ {ℓ} {A : Type ℓ} where
  abbrev pub length : List A → ℕ
  length [] = 0
  length (x ∷ xs) = suc (length xs)

  abbrev pub take : ℕ → List A → List A
  take zero xs = []
  take (suc n) [] = []
  take (suc n) (x ∷ xs) = x ∷ take n xs

  pub length-append : (xs ys : List A) → length (xs ++ ys) ≡ length xs + length ys
  length-append [] ys = omega arith
  length-append (x ∷ xs) ys = omega (arith, length-append xs ys)

  -- What is taken is all there is, if it is shorter than what was asked for.
  pub take-eq_of_short : (n : ℕ) (xs : List A) → length (take n xs) < n → take n xs ≡ xs
  take-eq_of_short zero xs h = elim h [ ]
  take-eq_of_short (suc n) [] h = refl
  take-eq_of_short (suc n) (x ∷ xs) h = ap (λ ys. x ∷ ys) (take-eq_of_short n xs (omega arith))
