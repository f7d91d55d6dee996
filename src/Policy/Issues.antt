-- ===== src/Policy/Issues.antt =====
-- The issues that `resolve` of crates/core/src/policy.rs reports are real.
use wiki_next.Base.{
  ℕ, ◌+◌, ◌≤◌, ◌≡◌, inl, inr, true, false, Option, none, some, List, [], ◌∷◌, arith, Option-cases,
  ok, err,
}
use wiki_next.Base.Keyed.{Ranked, =ₖ_refl, contains, get, insert, get-insert}
use wiki_next.Id.{GroupId, group_ranked}
use wiki_next.Policy.Action.{
  RolePolicy, RoleOverride, PolicyIssue, duplicate_role, duplicate_override, unknown_override_role,
  unknown_subject_role,
}
use wiki_next.Policy.Resolve.{
  Roles, Overrides, unique_roles_from, unique_roles, unique_overrides_from, unique_overrides,
  unknown_role,
}
use wiki_next.Policy.Valid.{
  role_ids_of, override_ids_of, count, get-unique_roles, is_some-find_role,
}

abbrev in_map : {A : Type 0} → Option A → ℕ
in_map none = 0
in_map (some _) = 1

module _ {Uuid : Type 0} ⦃u : Ranked Uuid⦄ where
  -- What an issue says of the lists of identifiers.
  abbrev pub IssueHolds :
      (roles overrides subject : List (GroupId Uuid)) → PolicyIssue Uuid → Type 0
  IssueHolds roles overrides subject (duplicate_role id) = 2 ≤ count id roles
  IssueHolds roles overrides subject (duplicate_override id) = 2 ≤ count id overrides
  IssueHolds roles overrides subject (unknown_subject_role id) =
      (contains id subject ≡ true) × (contains id roles ≡ false)
  IssueHolds roles overrides subject (unknown_override_role id) =
      (contains id overrides ≡ true) × (contains id roles ≡ false)

  abbrev RoleIssue : List (GroupId Uuid) → Roles Uuid → PolicyIssue Uuid → Type 0
  RoleIssue ids roles (duplicate_role id) = 2 ≤ count id ids + in_map (get id roles)
  RoleIssue ids roles _ = ⊥

  RoleIssue-insert :
      (role : RolePolicy Uuid) (ids : List (GroupId Uuid)) (roles : Roles Uuid)
      (issue : PolicyIssue Uuid)
      → RoleIssue ids (insert role.role_id role roles) issue
      → RoleIssue (role.role_id ∷ ids) roles issue
  unfolding count
  RoleIssue-insert role ids roles (duplicate_role id) h =
      ground (arith, get-insert id role.role_id role roles)
  RoleIssue-insert role ids roles _ h = h

  unique_roles_from-RoleIssue :
      (policies : List (RolePolicy Uuid)) (roles : Roles Uuid) {issue : PolicyIssue Uuid}
      → unique_roles_from policies roles ≡ err issue
      → RoleIssue (role_ids_of policies) roles issue
  unfolding unique_roles_from
  unique_roles_from-RoleIssue [] roles h = cc
  unique_roles_from-RoleIssue (role ∷ rest) roles {issue} h =
      elim (Option-cases (get role.role_id roles)) [
        | inl fresh ↦ RoleIssue-insert role (role_ids_of rest) roles issue (
            unique_roles_from-RoleIssue rest (insert role.role_id role roles)
              (rw (fresh, unique_roles_from) at h))
        | inr (old, found) ↦
            let e : duplicate_role role.role_id ≡ issue = ground arith in
            rw (← e) (unfold count in ground (arith, =ₖ_refl role.role_id))
      ]

  unique_roles-issue :
      (policies : List (RolePolicy Uuid)) {issue : PolicyIssue Uuid}
      → unique_roles policies ≡ err issue
      → RoleIssue (role_ids_of policies) [] issue
  unfolding unique_roles
  unique_roles-issue policies h = unique_roles_from-RoleIssue policies [] h

  abbrev OverrideIssue :
      List (GroupId Uuid) → Roles Uuid → Overrides Uuid → PolicyIssue Uuid → Type 0
  OverrideIssue ids roles overrides (duplicate_override id) =
      2 ≤ count id ids + in_map (get id overrides)
  OverrideIssue ids roles overrides (unknown_override_role id) =
      (contains id ids ≡ true) × (get id roles ≡ none)
  OverrideIssue ids roles overrides _ = ⊥

  OverrideIssue-insert :
      (o : RoleOverride Uuid) (ids : List (GroupId Uuid)) (roles : Roles Uuid)
      (overrides : Overrides Uuid) (issue : PolicyIssue Uuid)
      → OverrideIssue ids roles (insert o.role_id o overrides) issue
      → OverrideIssue (o.role_id ∷ ids) roles overrides issue
  unfolding count contains
  OverrideIssue-insert o ids roles overrides (duplicate_override id) h =
      ground (arith, get-insert id o.role_id o overrides)
  OverrideIssue-insert o ids roles overrides (unknown_override_role id) h = ground arith
  OverrideIssue-insert o ids roles overrides _ h = h

  unique_overrides_from-OverrideIssue :
      (given : List (RoleOverride Uuid)) (roles : Roles Uuid) (overrides : Overrides Uuid)
      {issue : PolicyIssue Uuid}
      → unique_overrides_from given roles overrides ≡ err issue
      → OverrideIssue (override_ids_of given) roles overrides issue
  unfolding unique_overrides_from
  unique_overrides_from-OverrideIssue [] roles overrides h = cc
  unique_overrides_from-OverrideIssue (o ∷ rest) roles overrides {issue} h =
      elim (Option-cases (get o.role_id roles)) [
        | inl missing ↦
            let e : unknown_override_role o.role_id ≡ issue = ground arith in
            rw (← e) (unfold contains in ground (arith, =ₖ_refl o.role_id))
        | inr (role, known) ↦ elim (Option-cases (get o.role_id overrides)) [
          | inl fresh ↦ OverrideIssue-insert o (override_ids_of rest) roles overrides issue (
              unique_overrides_from-OverrideIssue rest roles (insert o.role_id o overrides)
                (ground arith))
          | inr (old, found) ↦
              let e : duplicate_override o.role_id ≡ issue = ground arith in
              rw (← e) (unfold count in ground (arith, =ₖ_refl o.role_id))
        ]
      ]

  unknown_role_sound :
      (ids : List (GroupId Uuid)) (roles : Roles Uuid) {id : GroupId Uuid}
      → unknown_role ids roles ≡ some id
      → (contains id ids ≡ true) × (get id roles ≡ none)
  unfolding unknown_role contains
  unknown_role_sound [] roles h = cc
  unknown_role_sound (j ∷ ids) roles {id} h =
      ground (arith, unknown_role_sound ids roles {id = id}, =ₖ_refl j)

  -- The issue of a failed `unique_roles` is real.
  pub IssueHolds-roles :
      (policies : List (RolePolicy Uuid)) (overrides subject : List (GroupId Uuid))
      (issue : PolicyIssue Uuid)
      → unique_roles policies ≡ err issue
      → IssueHolds (role_ids_of policies) overrides subject issue
  unfolding get
  IssueHolds-roles policies overrides subject (duplicate_role id) h =
      omega (arith, unique_roles-issue policies h)
  IssueHolds-roles policies overrides subject _ h = absurd (unique_roles-issue policies h)

  -- So is that of a failed `unique_overrides`.
  pub IssueHolds-overrides :
      (policies : List (RolePolicy Uuid)) (given : List (RoleOverride Uuid))
      (subject : List (GroupId Uuid)) {roles : Roles Uuid} (issue : PolicyIssue Uuid)
      → unique_roles policies ≡ ok roles
      → unique_overrides given roles ≡ err issue
      → IssueHolds (role_ids_of policies) (override_ids_of given) subject issue
  unfolding get unique_overrides
  IssueHolds-overrides policies given subject {roles} (duplicate_override id) r h =
      omega (arith, unique_overrides_from-OverrideIssue given roles [] h)
  IssueHolds-overrides policies given subject {roles} (unknown_override_role id) r h = ground (
    arith,
    unique_overrides_from-OverrideIssue given roles [] h,
    get-unique_roles id policies r,
    is_some-find_role id policies,
  )
  IssueHolds-overrides policies given subject {roles} _ r h =
      absurd (unique_overrides_from-OverrideIssue given roles [] h)

  -- So is that of a subject with an unknown role.
  pub IssueHolds-subject :
      (policies : List (RolePolicy Uuid)) (ids : List (GroupId Uuid)) {roles : Roles Uuid}
      (id : GroupId Uuid)
      → unique_roles policies ≡ ok roles
      → unknown_role ids roles ≡ some id
      → (contains id ids ≡ true) × (contains id (role_ids_of policies) ≡ false)
  IssueHolds-subject policies ids {roles} id r h = ground (
    arith,
    unknown_role_sound ids roles h,
    get-unique_roles id policies r,
    is_some-find_role id policies,
  )
