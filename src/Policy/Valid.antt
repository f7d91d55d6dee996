-- ===== src/Policy/Valid.antt =====
-- When `unique_roles` and `unique_overrides` of crates/core/src/policy.rs accept their input, and
-- what their maps hold.
use wiki_next.Base.{
  ℕ, suc, ◌≡◌, refl, ap, Bool, true, false, not, ◌&&◌, Option, none, some, List, [], ◌∷◌, arith,
  if◌then◌else◌, is_some, all, Result, ok, err,
}
use mathlib.Core.Option.{or_else}
use wiki_next.Base.Keyed.{Ranked, ◌=ₖ◌, =ₖ_sound, contains, get, insert, get-insert}
use wiki_next.Id.{GroupId, group_ranked}
use wiki_next.Policy.Action.{RolePolicy, RoleOverride}
use wiki_next.Policy.Resolve.{
  Roles, Overrides, unique_roles_from, unique_roles, unique_overrides_from, unique_overrides,
  unknown_role,
}

-- The keys of a list, and its first element with a key.
abbrev pub keys_by {ℓ} : {A K : Type ℓ} → (A → K) → List A → List K
keys_by key [] = []
keys_by key (x ∷ xs) = key x ∷ keys_by key xs

unfoldable pub find_by {ℓ} : {A K : Type ℓ} ⦃o : Ranked K⦄ → (A → K) → K → List A → Option A
find_by key k [] = none
find_by key k (x ∷ xs) = if k =ₖ key x then some x else find_by key k xs

module _ {Uuid : Type 0} where
  abbrev pub role_ids_of : List (RolePolicy Uuid) → List (GroupId Uuid)
  role_ids_of = keys_by λ role. role.role_id

  abbrev pub override_ids_of : List (RoleOverride Uuid) → List (GroupId Uuid)
  override_ids_of = keys_by λ role_override. role_override.role_id

abbrev pub is_ok {ℓ κ} : {E : Type ℓ} {A : Type κ} → Result E A → Bool
is_ok (ok _) = true
is_ok (err _) = false

module _ {ℓ} {K : Type ℓ} ⦃o : Ranked K⦄ where
  unfoldable pub distinct : List K → Bool
  distinct [] = true
  distinct (k ∷ ks) = not (contains k ks) && distinct ks

  unfoldable pub count : K → List K → ℕ
  count k [] = 0
  count k (j ∷ ks) = if k =ₖ j then suc (count k ks) else count k ks

  unfoldable pub avoids {κ} : {V : Type κ} → List (K × V) → List K → Bool
  avoids m [] = true
  avoids m (k ∷ ks) = not (is_some (get k m)) && avoids m ks

  avoids-insert {κ} :
      {V : Type κ} (k : K) (v : V) (m : List (K × V)) (ks : List K)
      → avoids (insert k v m) ks ≡ (not (contains k ks) && avoids m ks)
  unfolding avoids contains
  avoids-insert k v m [] = refl
  avoids-insert k v m (j ∷ ks) = ground (arith, avoids-insert k v m ks, get-insert j k v m)

  avoids-nil {κ} : (V : Type κ) (ks : List K) → avoids {V = V} [] ks ≡ true
  unfolding avoids get
  avoids-nil V [] = refl
  avoids-nil V (k ∷ ks) = avoids-nil V ks

  get-congr {κ} : {V : Type κ} (j k : K) (m : List (K × V)) → (j =ₖ k) ≡ true → get j m ≡ get k m
  get-congr j k m h = ap (λ i. get i m) (=ₖ_sound j k h)

module _ {Uuid : Type 0} ⦃u : Ranked Uuid⦄ where
  unfoldable pub find_role : GroupId Uuid → List (RolePolicy Uuid) → Option (RolePolicy Uuid)
  unfolding find_by
  find_role = find_by λ role. role.role_id

  unfoldable pub find_override :
      GroupId Uuid → List (RoleOverride Uuid) → Option (RoleOverride Uuid)
  unfolding find_by
  find_override = find_by λ role_override. role_override.role_id

  pub is_some-find_role :
      (id : GroupId Uuid) (roles : List (RolePolicy Uuid))
      → is_some (find_role id roles) ≡ contains id (role_ids_of roles)
  unfolding find_role contains
  is_some-find_role id [] = refl
  is_some-find_role id (role ∷ roles) = ground (arith, is_some-find_role id roles)

  is_ok-unique_roles_from :
      (policies : List (RolePolicy Uuid)) (roles : Roles Uuid)
      → is_ok (unique_roles_from policies roles)
        ≡ (distinct (role_ids_of policies) && avoids roles (role_ids_of policies))
  unfolding unique_roles_from distinct avoids
  is_ok-unique_roles_from [] roles = refl
  is_ok-unique_roles_from (role ∷ rest) roles = ground (
    arith,
    is_ok-unique_roles_from rest (insert role.role_id role roles),
    avoids-insert role.role_id role roles (role_ids_of rest),
  )

  -- `unique_roles` succeeds exactly on policies with distinct identifiers.
  pub is_ok-unique_roles :
      (policies : List (RolePolicy Uuid))
      → is_ok (unique_roles policies) ≡ distinct (role_ids_of policies)
  unfolding unique_roles
  is_ok-unique_roles policies = ground (
    arith,
    is_ok-unique_roles_from policies [],
    avoids-nil (RolePolicy Uuid) (role_ids_of policies),
  )

  get-unique_roles_from :
      (id : GroupId Uuid) (policies : List (RolePolicy Uuid)) (roles : Roles Uuid)
      {out : Roles Uuid}
      → unique_roles_from policies roles ≡ ok out
      → get id out ≡ or_else (get id roles) (find_role id policies)
  unfolding unique_roles_from find_role or_else
  get-unique_roles_from id [] roles h = ground arith
  get-unique_roles_from id (role ∷ rest) roles {out} h = ground (
    arith,
    get-unique_roles_from id rest (insert role.role_id role roles) {out = out},
    get-insert id role.role_id role roles,
    get-congr id role.role_id roles,
  )

  pub get-unique_roles :
      (id : GroupId Uuid) (policies : List (RolePolicy Uuid)) {roles : Roles Uuid}
      → unique_roles policies ≡ ok roles
      → get id roles ≡ find_role id policies
  unfolding unique_roles get or_else
  get-unique_roles id policies h = get-unique_roles_from id policies [] h

  is_ok-unique_overrides_from :
      (given : List (RoleOverride Uuid)) (roles : Roles Uuid) (overrides : Overrides Uuid)
      → is_ok (unique_overrides_from given roles overrides) ≡ (
          all (λ id. is_some (get id roles)) (override_ids_of given)
          && (distinct (override_ids_of given) && avoids overrides (override_ids_of given)))
  unfolding unique_overrides_from distinct avoids
  is_ok-unique_overrides_from [] roles overrides = refl
  is_ok-unique_overrides_from (o ∷ rest) roles overrides = ground (
    arith,
    is_ok-unique_overrides_from rest roles (insert o.role_id o overrides),
    avoids-insert o.role_id o overrides (override_ids_of rest),
  )

  pub is_ok-unique_overrides :
      (given : List (RoleOverride Uuid)) (roles : Roles Uuid)
      → is_ok (unique_overrides given roles) ≡ (
          all (λ id. is_some (get id roles)) (override_ids_of given)
          && distinct (override_ids_of given))
  unfolding unique_overrides
  is_ok-unique_overrides given roles = ground (
    arith,
    is_ok-unique_overrides_from given roles [],
    avoids-nil (RoleOverride Uuid) (override_ids_of given),
  )

  get-unique_overrides_from :
      (id : GroupId Uuid) (given : List (RoleOverride Uuid)) (roles : Roles Uuid)
      (overrides : Overrides Uuid) {out : Overrides Uuid}
      → unique_overrides_from given roles overrides ≡ ok out
      → get id out ≡ or_else (get id overrides) (find_override id given)
  unfolding unique_overrides_from find_override or_else
  get-unique_overrides_from id [] roles overrides h = ground arith
  get-unique_overrides_from id (o ∷ rest) roles overrides {out} h = ground (
    arith,
    get-unique_overrides_from id rest roles (insert o.role_id o overrides) {out = out},
    get-insert id o.role_id o overrides,
    get-congr id o.role_id overrides,
  )

  pub get-unique_overrides :
      (id : GroupId Uuid) (given : List (RoleOverride Uuid)) (roles : Roles Uuid)
      {overrides : Overrides Uuid}
      → unique_overrides given roles ≡ ok overrides
      → get id overrides ≡ find_override id given
  unfolding unique_overrides get or_else
  get-unique_overrides id given roles h = get-unique_overrides_from id given roles [] h

  pub is_some-unknown_role :
      (ids : List (GroupId Uuid)) (roles : Roles Uuid)
      → is_some (unknown_role ids roles) ≡ not (all (λ id. is_some (get id roles)) ids)
  unfolding unknown_role
  is_some-unknown_role [] roles = refl
  is_some-unknown_role (id ∷ ids) roles = ground (arith, is_some-unknown_role ids roles)
