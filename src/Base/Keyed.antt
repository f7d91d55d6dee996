-- ===== src/Base/Keyed.antt =====
-- `BTreeMap` and `BTreeSet` as lists in the order of their keys. A key is compared by its rank.
use Prim.Native.Nat.{ℕ, compare, Ordering}
use mathlib.Core.Path.{◌≡◌, refl}
use mathlib.Core.Bool.{Bool, true, false, ◌&&◌, ◌||◌}
use mathlib.Core.Option.{Option, none, some}
use mathlib.Core.Option
use mathlib.Core.Logic.{inl, inr}
use mathlib.Core.List.{List, [], ◌∷◌}
use native.Mathlib.Omega.{arith}
use wiki_next.Base.Tests.{◌==◌, if◌then◌else◌, Bool-cases, ==_iff}

-- `Ord` by a number that tells the keys apart.
pub record Ranked {ℓ} (K : Type ℓ) : Type ℓ where
  pub rank : K → ℕ
  pub rank-injective : (a b : K) → rank a ≡ rank b → a ≡ b

module _ {ℓ} {K : Type ℓ} ⦃o : Ranked K⦄ where
  infix 50 ◌=ₖ◌
  abbrev pub ◌=ₖ◌ : K → K → Bool
  a =ₖ b = o.rank a == o.rank b

  pub =ₖ_sound : (a b : K) → (a =ₖ b) ≡ true → a ≡ b
  =ₖ_sound a b h = o.rank-injective a b ((==_iff _ _).0 h)

  pub =ₖ_refl : (a : K) → (a =ₖ a) ≡ true
  =ₖ_refl a = (==_iff _ _).1 refl

  -- The order in which a set or a map is iterated.
  abbrev pub Increasing : List K → Type 0
  Increasing [] = Unit
  Increasing (a ∷ []) = Unit
  Increasing (a ∷ b ∷ s) = ((compare (o.rank a) (o.rank b)) ≡ Ordering.lt) × Increasing (b ∷ s)

  unfoldable pub contains : K → List K → Bool
  contains k [] = false
  contains k (j ∷ s) = k =ₖ j || contains k s

  unfoldable pub add : K → List K → List K
  add k [] = k ∷ []
  add k (j ∷ s) = elim (compare (o.rank k) (o.rank j)) [
    | Ordering.lt ↦ k ∷ j ∷ s
    | Ordering.eq ↦ j ∷ s
    | Ordering.gt ↦ j ∷ add k s
  ]

  unfoldable pub extend : List K → List K → List K
  extend s [] = s
  extend s (k ∷ ks) = extend (add k s) ks

  pub contains-add : (j k : K) (s : List K) → contains j (add k s) ≡ (j =ₖ k || contains j s)
  unfolding contains add
  contains-add j k [] = refl
  contains-add j k (i ∷ s) = ground (arith, contains-add j k s)

  pub contains-extend :
      (k : K) (s ks : List K) → contains k (extend s ks) ≡ (contains k s || contains k ks)
  unfolding contains extend
  contains-extend k s [] = ground arith
  contains-extend k s (j ∷ ks) = ground (arith, contains-extend k (add j s) ks, contains-add k j s)

-- `retain`.
unfoldable pub retain {ℓ} : {A : Type ℓ} → (A → Bool) → List A → List A
retain p [] = []
retain p (x ∷ xs) = let rest = retain p xs in if p x then x ∷ rest else rest

module _ {ℓ} {K : Type ℓ} ⦃o : Ranked K⦄ where
  pub contains-retain :
      (p : K → Bool) (k : K) (s : List K) → contains k (retain p s) ≡ (contains k s && p k)
  unfolding contains retain
  contains-retain p k [] = refl
  contains-retain p k (j ∷ s) = elim (Bool-cases (k =ₖ j)) [
    | inl same ↦ rw (=ₖ_sound k j same) (ground (arith, contains-retain p j s, =ₖ_refl j))
    | inr other ↦ ground (arith, contains-retain p k s)
  ]

module _ {ℓ κ} {K : Type ℓ} {V : Type κ} ⦃o : Ranked K⦄ where
  unfoldable pub get : K → List (K × V) → Option V
  get k [] = none
  get k ((j, v) ∷ m) = if k =ₖ j then some v else get k m

  -- `BTreeMap::insert` without the value that it returns, which is `get` of the old map.
  unfoldable pub insert : K → V → List (K × V) → List (K × V)
  insert k v [] = (k, v) ∷ []
  insert k v ((j, w) ∷ m) = elim (compare (o.rank k) (o.rank j)) [
    | Ordering.lt ↦ (k, v) ∷ (j, w) ∷ m
    | Ordering.eq ↦ (j, v) ∷ m
    | Ordering.gt ↦ (j, w) ∷ insert k v m
  ]

  -- `entry(k).or_insert(v)`.
  unfoldable pub or_insert : K → V → List (K × V) → List (K × V)
  or_insert k v m = elim (get k m) [ none ↦ insert k v m | some _ ↦ m ]

  pub get-insert :
      (j k : K) (v : V) (m : List (K × V))
      → get j (insert k v m) ≡ (if j =ₖ k then some v else get j m)
  unfolding get insert
  get-insert j k v [] = refl
  get-insert j k v ((i, w) ∷ m) = ground (arith, get-insert j k v m)

  pub get-or_insert :
      (j k : K) (v : V) (m : List (K × V))
      → get j (or_insert k v m) ≡ Option.or_else (get j m) (if j =ₖ k then some v else none)
  unfolding or_insert Option.or_else
  get-or_insert j k v m = elim (Bool-cases (j =ₖ k)) [
    | inl same ↦ rw (=ₖ_sound j k same) (ground (arith, get-insert k k v m, =ₖ_refl k))
    | inr other ↦ ground (arith, get-insert j k v m)
  ]
