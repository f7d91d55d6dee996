-- ===== src/Policy/Grants.antt =====
-- What `effective_grants` of crates/core/src/policy.rs computes.
use wiki_next.Base.{
  ◌≡◌, inl, inr, Bool, false, not, ◌&&◌, ◌||◌, Option, none, some, List, [], ◌∷◌, arith,
  if◌then◌else◌, Option-cases,
}
use wiki_next.Base.Keyed.{
  Ranked, contains, get, contains-retain, contains-extend, get-or_insert, or_insert,
}
use mathlib.Core.Option.{or_else, Option, none, some}
use wiki_next.Id.{GroupId, group_ranked}
use wiki_next.Policy.Action.{Action, action_ranked, RolePolicy, RoleOverride, PolicySubject}
use wiki_next.Policy.Resolve.{
  Roles, Overrides, Grants, role_grants, grant_all, effective_grants_from, effective_grants,
}

module _ {Uuid : Type 0} where
  -- One role by itself: `(allow − restriction) + override allow − override restriction`.
  unfoldable pub permits : RolePolicy Uuid → Option (RoleOverride Uuid) → Action → Bool
  permits role none action = contains action role.allows && not (contains action role.restrictions)
  permits role (some role_override) action =
      (contains action role.allows && not (contains action role.restrictions)
        || contains action role_override.allows)
      && not (contains action role_override.restrictions)

-- The first element that passes a test.
unfoldable pub first {ℓ} : {A : Type ℓ} → (A → Bool) → List A → Option A
first p [] = none
first p (x ∷ xs) = if p x then some x else first p xs

module _ {Uuid : Type 0} ⦃u : Ranked Uuid⦄ where
  pub contains-role_grants :
      (role : RolePolicy Uuid) (o : Option (RoleOverride Uuid)) (action : Action)
      → contains action (role_grants role o) ≡ permits role o action
  unfolding role_grants permits
  contains-role_grants role none action = contains-retain _ action role.allows
  contains-role_grants role (some o) action = simp (contains-retain, contains-extend)

  pub get-grant_all :
      (action : Action) (id : GroupId Uuid) (actions : List Action) (grants : Grants Uuid)
      → get action (grant_all id actions grants)
        ≡ or_else (get action grants) (if contains action actions then some id else none)
  unfolding grant_all contains or_else
  get-grant_all action id [] grants = ground arith
  get-grant_all action id (a ∷ actions) grants = ground (
    arith,
    get-grant_all action id actions (or_insert a id grants),
    get-or_insert action a id grants,
  )

  -- Whether a role of the policy, with its override, permits an action.
  unfoldable pub role_permits : Roles Uuid → Overrides Uuid → Action → GroupId Uuid → Bool
  role_permits roles overrides action id = elim (get id roles) [
    | none ↦ false
    | some role ↦ permits role (get id overrides) action
  ]

  get-effective_grants_from :
      (ids : List (GroupId Uuid)) (roles : Roles Uuid) (overrides : Overrides Uuid)
      (grants : Grants Uuid) (action : Action)
      → get action (effective_grants_from ids roles overrides grants)
        ≡ or_else (get action grants) (first (role_permits roles overrides action) ids)
  unfolding effective_grants_from first role_permits or_else
  get-effective_grants_from [] roles overrides grants action = ground arith
  get-effective_grants_from (id ∷ ids) roles overrides grants action =
      elim (Option-cases (get id roles)) [
        | inl missing ↦
            rw (missing, effective_grants_from, first, role_permits)
              (get-effective_grants_from ids roles overrides grants action)
        | inr (role, found) ↦
            let o = get id overrides in
            let granted = grant_all id (role_grants role o) grants in
            ground (
              arith,
              get-effective_grants_from ids roles overrides granted action,
              get-grant_all action id (role_grants role o) grants,
              contains-role_grants role o action,
            )
      ]

  -- The grant of an action is the first of the subject's roles, in their order, that permits it
  -- by its own policy and its own override; restrictions of the other roles play no part. There is
  -- no grant if no role permits the action.
  pub get-effective_grants :
      (subject : PolicySubject Uuid) (roles : Roles Uuid) (overrides : Overrides Uuid)
      (action : Action)
      → get action (effective_grants subject roles overrides)
        ≡ first (role_permits roles overrides action) subject.role_ids
  unfolding effective_grants get or_else
  get-effective_grants subject roles overrides action =
      get-effective_grants_from subject.role_ids roles overrides [] action
