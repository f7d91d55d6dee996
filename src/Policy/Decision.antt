-- ===== src/Policy/Decision.antt =====
-- `resolve` of crates/core/src/policy.rs against the rules of docs/compat/rufoundation-acl.md,
-- stated over the lists of the input.
use wiki_next.Base.{
  ◌≡◌, refl, ◌∙◌, ◌⊎◌, inl, inr, Bool, true, false, not, ◌&&◌, Option, none, some, List, [], ◌∷◌,
  arith, if◌then◌else◌, is_some, all, Result, ok, err,
}
use wiki_next.Base.Keyed.{Ranked, ◌=ₖ◌, contains, get}
use wiki_next.Id.{GroupId, group_ranked}
use wiki_next.Policy.Action.{
  Action, action_ranked, manage_authors, lock, PolicyInput, PolicySubject, PagePolicyState,
  PolicyIssue, unknown_subject_role, invalid_policy, page_locked, author_grant, role_grant,
  no_grant, Decision, edit, delete, rename, manage_files, tag,
}
use wiki_next.Policy.Resolve.{
  Roles, Overrides, is_removed_by_page_lock, allow, deny, unique_roles, unique_overrides,
  unknown_role, effective_grants, decide_grants, resolve_roles, invalid,
}
use wiki_next.Policy.Grants.{permits, first, role_permits, get-effective_grants}
use wiki_next.Policy.Valid.{
  role_ids_of, override_ids_of, is_ok, distinct, find_role, find_override, is_some-find_role,
  is_ok-unique_roles, get-unique_roles, is_ok-unique_overrides, get-unique_overrides,
  is_some-unknown_role,
}
use wiki_next.Policy.Issues.{IssueHolds, IssueHolds-roles, IssueHolds-overrides, IssueHolds-subject}

-- The six mutations of a page that its lock removes.
abbrev pub locked_mutations : List Action
locked_mutations = edit ∷ delete ∷ rename ∷ manage_files ∷ manage_authors ∷ tag ∷ []

abbrev pub is_locked_mutation : Action → Bool
is_locked_mutation action = contains action locked_mutations

pub is_removed_by_page_lock-eq :
    (action : Action) → is_removed_by_page_lock action ≡ is_locked_mutation action
unfolding is_removed_by_page_lock contains
is_removed_by_page_lock-eq action = ground arith

module _ {Uuid : Type 0} ⦃u : Ranked Uuid⦄ where
  -- No role and no override is listed twice, and all that are named are known.
  unfoldable pub is_valid : PolicyInput Uuid → PolicySubject Uuid → Bool
  is_valid input subject =
      distinct (role_ids_of input.roles)
      && (all (λ id. contains id (role_ids_of input.roles))
            (override_ids_of input.category_overrides)
          && distinct (override_ids_of input.category_overrides))
      && all (λ id. contains id (role_ids_of input.roles)) subject.role_ids

  unfoldable pub listed_permits : PolicyInput Uuid → Action → GroupId Uuid → Bool
  listed_permits input action id = elim (find_role id input.roles) [
    | none ↦ false
    | some role ↦ permits role (find_override id input.category_overrides) action
  ]

  -- The first of the subject's roles that permits an action.
  unfoldable pub granting : PolicyInput Uuid → PolicySubject Uuid → Action → Option (GroupId Uuid)
  unfolding listed_permits first
  granting input subject action = first (listed_permits input action) subject.role_ids

  unfoldable pub decision :
      PolicyInput Uuid → PolicySubject Uuid → PagePolicyState → Action → Decision Uuid
  unfolding granting
  decision input subject page action =
      if page.locked && is_locked_mutation action && not (is_some (granting input subject lock))
      then deny page_locked
      else if action =ₖ manage_authors && page.subject_is_author && not page.locked
      then allow author_grant
      else elim (granting input subject action) [
        | some id ↦ allow (role_grant id)
        | none ↦ deny no_grant
      ]

  pub all-congr :
      (p q : GroupId Uuid → Bool) (ids : List (GroupId Uuid))
      → ((id : GroupId Uuid) → p id ≡ q id)
      → all p ids ≡ all q ids
  all-congr p q [] h = refl
  all-congr p q (id ∷ ids) h = ground (arith, h id, all-congr p q ids h)

  pub first-congr :
      (p q : GroupId Uuid → Bool) (ids : List (GroupId Uuid))
      → ((id : GroupId Uuid) → p id ≡ q id)
      → first p ids ≡ first q ids
  unfolding first
  first-congr p q [] h = refl
  first-congr p q (id ∷ ids) h = ground (arith, h id, first-congr p q ids h)

  module _ (input : PolicyInput Uuid) {roles : Roles Uuid}
      (built : unique_roles input.roles ≡ ok roles) where
    known-eq-listed :
        (id : GroupId Uuid) → is_some (get id roles) ≡ contains id (role_ids_of input.roles)
    known-eq-listed id =
        rw (get-unique_roles id input.roles built) (is_some-find_role id input.roles)

    get-grants :
        {overrides : Overrides Uuid} (subject : PolicySubject Uuid) (action : Action)
        → unique_overrides input.category_overrides roles ≡ ok overrides
        → get action (effective_grants subject roles overrides) ≡ granting input subject action
    unfolding role_permits granting
    get-grants {overrides} subject action h =
        get-effective_grants subject roles overrides action
        ∙ first-congr _ _ subject.role_ids λ id. ground (
          arith,
          get-unique_roles id input.roles built,
          get-unique_overrides id input.category_overrides roles h,
        )

    decide_grants-eq-decision :
        {overrides : Overrides Uuid} (subject : PolicySubject Uuid) (page : PagePolicyState)
        (action : Action)
        → unique_overrides input.category_overrides roles ≡ ok overrides
        → decide_grants (effective_grants subject roles overrides) page action
          ≡ decision input subject page action
    unfolding decide_grants decision
    decide_grants-eq-decision {overrides} subject page action h =
        rw (
          get-grants subject action h,
          get-grants subject lock h,
          is_removed_by_page_lock-eq action,
        )

    -- Past `unique_roles`, the rest of `resolve` accepts what `is_valid` asks for.
    is_valid_of_built :
        (subject : PolicySubject Uuid)
        → is_valid input subject ≡ (
            is_ok (unique_overrides input.category_overrides roles)
            && not (is_some (unknown_role subject.role_ids roles)))
    unfolding is_valid
    is_valid_of_built subject = ground (
      arith,
      built,
      is_ok-unique_roles input.roles,
      is_ok-unique_overrides input.category_overrides roles,
      is_some-unknown_role subject.role_ids roles,
      all-congr _ _ subject.role_ids known-eq-listed,
      all-congr _ _ (override_ids_of input.category_overrides) known-eq-listed,
    )

  -- How `resolve_roles` ends: with the decision on valid input, else with an issue that holds.
  abbrev pub Outcome :
      PolicyInput Uuid → PolicySubject Uuid → PagePolicyState → Action → Decision Uuid → Type 0
  Outcome input subject page action d =
      ((is_valid input subject ≡ true) × (d ≡ decision input subject page action))
      ⊎ ((is_valid input subject ≡ false)
          × ((issue : PolicyIssue Uuid) × (d ≡ deny (invalid_policy issue))
              × IssueHolds (role_ids_of input.roles) (override_ids_of input.category_overrides)
                  subject.role_ids issue))

  module _ (input : PolicyInput Uuid) (subject : PolicySubject Uuid) (page : PagePolicyState)
      (action : Action) where
    abbrev Ends : Type 0
    Ends = Outcome input subject page action (resolve_roles input subject page action)

    resolve_roles_of_unknown :
        {roles : Roles Uuid} {overrides : Overrides Uuid} (r : Option (GroupId Uuid))
        → unique_roles input.roles ≡ ok roles
        → unique_overrides input.category_overrides roles ≡ ok overrides
        → unknown_role subject.role_ids roles ≡ r
        → Ends
    unfolding resolve_roles invalid
    resolve_roles_of_unknown none b c e = inl (
      ground (arith, is_valid_of_built input b subject),
      ground (arith, decide_grants-eq-decision input b subject page action c),
    )
    resolve_roles_of_unknown (some id) b c e = inr (
      ground (arith, is_valid_of_built input b subject),
      (
        unknown_subject_role id,
        ground arith,
        IssueHolds-subject input.roles subject.role_ids id b e,
      ),
    )

    resolve_roles_of_overrides :
        {roles : Roles Uuid} (r : Result (PolicyIssue Uuid) (Overrides Uuid))
        → unique_roles input.roles ≡ ok roles
        → unique_overrides input.category_overrides roles ≡ r
        → Ends
    unfolding resolve_roles invalid
    resolve_roles_of_overrides {roles} (ok overrides) b e =
        resolve_roles_of_unknown (unknown_role subject.role_ids roles) b e refl
    resolve_roles_of_overrides (err issue) b e = inr (
      ground (arith, is_valid_of_built input b subject),
      (
        issue,
        ground arith,
        IssueHolds-overrides input.roles input.category_overrides subject.role_ids issue b e,
      ),
    )

    resolve_roles_of_roles :
        (r : Result (PolicyIssue Uuid) (Roles Uuid)) → unique_roles input.roles ≡ r → Ends
    unfolding resolve_roles invalid is_valid
    resolve_roles_of_roles (ok roles) e =
        resolve_roles_of_overrides (unique_overrides input.category_overrides roles) e refl
    resolve_roles_of_roles (err issue) e = inr (
      ground (arith, is_ok-unique_roles input.roles),
      (issue, ground arith, IssueHolds-roles input.roles _ _ issue e),
    )

    pub resolve_roles-Outcome :
        Outcome input subject page action (resolve_roles input subject page action)
    resolve_roles-Outcome = resolve_roles_of_roles (unique_roles input.roles) refl
