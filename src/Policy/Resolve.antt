-- ===== src/Policy/Resolve.antt =====
-- `resolve` of crates/core/src/policy.rs and the functions that it calls.
use wiki_next.Base.Keyed.{Ranked, ◌=ₖ◌, contains, extend, retain, get, insert, or_insert}
use wiki_next.Base.{Bool, true, false, not, ◌&&◌, Option, none, some, List, [], ◌∷◌}
use wiki_next.Base.{Result, ok, err, is_some, if◌then◌else◌}
use wiki_next.Id.{GroupId, group_ranked}
use wiki_next.Policy.Action.{
  Action, action_ranked, edit, delete, rename, manage_files, manage_authors, tag, lock, RolePolicy,
  RoleOverride, PolicyInput, PolicySubject, PagePolicyState, PolicyIssue, duplicate_role,
  duplicate_override, unknown_subject_role, unknown_override_role, DecisionReason, inactive_account,
  superuser, role_grant, author_grant, page_locked, no_grant, invalid_policy, Decision,
}

unfoldable pub is_removed_by_page_lock : Action → Bool
is_removed_by_page_lock edit = true
is_removed_by_page_lock delete = true
is_removed_by_page_lock rename = true
is_removed_by_page_lock manage_files = true
is_removed_by_page_lock manage_authors = true
is_removed_by_page_lock tag = true
is_removed_by_page_lock _ = false

module _ {Uuid : Type 0} where
  unfoldable pub allow : DecisionReason Uuid → Decision Uuid
  allow reason = record { allowed = true; reason = reason }

  unfoldable pub deny : DecisionReason Uuid → Decision Uuid
  deny reason = record { allowed = false; reason = reason }

  unfoldable pub invalid : PolicyIssue Uuid → Decision Uuid
  unfolding deny
  invalid issue = deny (invalid_policy issue)

-- `BTreeMap<GroupId, &RolePolicy>`, `BTreeMap<GroupId, &RoleOverride>`, `BTreeMap<Action, GroupId>`.
abbrev pub Roles : Type 0 → Type 0
Roles Uuid = List (GroupId Uuid × RolePolicy Uuid)

abbrev pub Overrides : Type 0 → Type 0
Overrides Uuid = List (GroupId Uuid × RoleOverride Uuid)

abbrev pub Grants : Type 0 → Type 0
Grants Uuid = List (Action × GroupId Uuid)

module _ {Uuid : Type 0} ⦃u : Ranked Uuid⦄ where
  -- The loop of `unique_roles` over the policies that are left, with the map built so far.
  unfoldable pub unique_roles_from :
      List (RolePolicy Uuid) → Roles Uuid → Result (PolicyIssue Uuid) (Roles Uuid)
  unique_roles_from [] roles = ok roles
  unique_roles_from (role ∷ rest) roles =
      if is_some (get role.role_id roles)
      then err (duplicate_role role.role_id)
      else unique_roles_from rest (insert role.role_id role roles)

  unfoldable pub unique_roles : List (RolePolicy Uuid) → Result (PolicyIssue Uuid) (Roles Uuid)
  unfolding unique_roles_from
  unique_roles role_policies = unique_roles_from role_policies []

  -- The loop of `unique_overrides`.
  unfoldable pub unique_overrides_from :
      List (RoleOverride Uuid)
      → Roles Uuid
      → Overrides Uuid
      → Result (PolicyIssue Uuid) (Overrides Uuid)
  unique_overrides_from [] roles overrides = ok overrides
  unique_overrides_from (role_override ∷ rest) roles overrides =
      let id = role_override.role_id in
      let next = unique_overrides_from rest roles (insert id role_override overrides) in
      if not (is_some (get id roles))
      then err (unknown_override_role id)
      else if is_some (get id overrides)
      then err (duplicate_override id)
      else next

  unfoldable pub unique_overrides :
      List (RoleOverride Uuid) → Roles Uuid → Result (PolicyIssue Uuid) (Overrides Uuid)
  unfolding unique_overrides_from
  unique_overrides role_overrides roles = unique_overrides_from role_overrides roles []

  -- The body of the loop of `effective_grants` up to the last `retain`.
  unfoldable pub role_grants : RolePolicy Uuid → Option (RoleOverride Uuid) → List Action
  role_grants role none = retain (λ action. not (contains action role.restrictions)) role.allows
  role_grants role (some role_override) =
      retain (λ action. not (contains action role_override.restrictions))
        (extend (retain (λ action. not (contains action role.restrictions)) role.allows)
          role_override.allows)

  -- `for action in role_grants`.
  unfoldable pub grant_all : GroupId Uuid → List Action → Grants Uuid → Grants Uuid
  grant_all role_id [] grants = grants
  grant_all role_id (action ∷ rest) grants =
      grant_all role_id rest (or_insert action role_id grants)

  -- `for role_id in &subject.role_ids`.
  unfoldable pub effective_grants_from :
      List (GroupId Uuid) → Roles Uuid → Overrides Uuid → Grants Uuid → Grants Uuid
  effective_grants_from [] roles overrides grants = grants
  effective_grants_from (role_id ∷ rest) roles overrides grants =
      effective_grants_from rest roles overrides (elim (get role_id roles) [
        | none ↦ grants
        | some role ↦ grant_all role_id (role_grants role (get role_id overrides)) grants
      ])

  unfoldable pub effective_grants : PolicySubject Uuid → Roles Uuid → Overrides Uuid → Grants Uuid
  unfolding effective_grants_from grant_all role_grants
  effective_grants subject roles overrides =
      effective_grants_from subject.role_ids roles overrides []

  -- The loop of `resolve` that looks for a role of the subject which the policy lacks.
  unfoldable pub unknown_role : List (GroupId Uuid) → Roles Uuid → Option (GroupId Uuid)
  unknown_role [] roles = none
  unknown_role (role_id ∷ rest) roles =
      if not (is_some (get role_id roles)) then some role_id else unknown_role rest roles

  -- The end of `resolve`, from the grants on.
  unfoldable pub decide_grants : Grants Uuid → PagePolicyState → Action → Decision Uuid
  decide_grants grants page action =
      if page.locked && is_removed_by_page_lock action && not (is_some (get lock grants))
      then deny page_locked
      else if action =ₖ manage_authors && page.subject_is_author && not page.locked
      then allow author_grant
      else elim (get action grants) [
        | some role_id ↦ allow (role_grant role_id)
        | none ↦ deny no_grant
      ]

  -- `resolve` past the tests of the account.
  unfoldable pub resolve_roles :
      PolicyInput Uuid → PolicySubject Uuid → PagePolicyState → Action → Decision Uuid
  resolve_roles input subject page action = elim (unique_roles input.roles) [
    | err issue ↦ invalid issue
    | ok roles ↦ elim (unique_overrides input.category_overrides roles) [
      | err issue ↦ invalid issue
      | ok overrides ↦ elim (unknown_role subject.role_ids roles) [
        | some role_id ↦ invalid (unknown_subject_role role_id)
        | none ↦ decide_grants (effective_grants subject roles overrides) page action
      ]
    ]
  ]

  unfoldable pub resolve :
      PolicyInput Uuid → PolicySubject Uuid → PagePolicyState → Action → Decision Uuid
  resolve input subject page action =
      if not subject.is_active
      then deny inactive_account
      else if subject.is_superuser
      then allow superuser
      else resolve_roles input subject page action
