-- ===== src/Policy/UnitTests.antt =====
-- The tests of crates/core/src/policy.rs as statements on the identifiers that they draw.
pub mod Pass
use mathlib.Core.List.{reverse}
use wiki_next.Base.{ℕ, ◌≡◌, ◌≢◌, refl, Bool, true, false, some, List, [], ◌∷◌, arith}
use wiki_next.Base.Keyed.{Ranked, extend}
use wiki_next.Id.{UserId, GroupId, group_ranked}
use wiki_next.Policy.Action.{
  Action, read, edit, lock, admin, manage_authors, RolePolicy, RoleOverride, PolicyInput,
  PolicySubject, PagePolicyState, unknown_subject_role, superuser, inactive_account, no_grant,
  page_locked, author_grant, role_grant, invalid_policy, Decision, action_ranked,
}
use wiki_next.Policy.Resolve.{deny, resolve}

-- `into_iter().collect()` of a `BTreeSet`.
abbrev pub set : List Action → List Action
set actions = extend [] actions

abbrev pub page : PagePolicyState
page = record { locked = false; subject_is_author = false }

module _ {Uuid : Type 0} ⦃u : Ranked Uuid⦄ where
  abbrev pub role : GroupId Uuid → List Action → List Action → RolePolicy Uuid
  role role_id allows restrictions = record {
    role_id = role_id;
    allows = set allows;
    restrictions = set restrictions;
  }

  abbrev pub subject : UserId Uuid → List (GroupId Uuid) → PolicySubject Uuid
  subject user role_ids = record {
    user_id = some user;
    is_active = true;
    is_superuser = false;
    role_ids = extend [] role_ids;
  }

  abbrev pub RestrictionRemovesAllowInsideSameRole : UserId Uuid → GroupId Uuid → Type 0
  RestrictionRemovesAllowInsideSameRole user everyone =
      let input : PolicyInput Uuid = record {
        roles = role everyone (read ∷ []) (read ∷ []) ∷ [];
        category_overrides = [];
      } in
      resolve input (subject user (everyone ∷ [])) page read ≡ deny no_grant

  abbrev pub GrantInAnotherRoleSurvivesARestriction :
      UserId Uuid → GroupId Uuid → GroupId Uuid → Type 0
  GrantInAnotherRoleSurvivesARestriction user restricted granting =
      let input : PolicyInput Uuid = record {
        roles = role restricted (edit ∷ []) (edit ∷ []) ∷ role granting (edit ∷ []) [] ∷ [];
        category_overrides = [];
      } in
      let decision = resolve input (subject user (restricted ∷ granting ∷ [])) page edit in
      (decision.allowed ≡ true) × (decision.reason ≡ role_grant granting)

  abbrev pub CategoryOverrideIsAppliedPerRoleBeforeUnion :
      UserId Uuid → GroupId Uuid → GroupId Uuid → Type 0
  CategoryOverrideIsAppliedPerRoleBeforeUnion user restricted granting =
      let input : PolicyInput Uuid = record {
        roles = role restricted (read ∷ []) [] ∷ role granting [] [] ∷ [];
        category_overrides =
            record { role_id = restricted; allows = []; restrictions = set (read ∷ []) }
            ∷ record { role_id = granting; allows = set (read ∷ []); restrictions = [] }
            ∷ [];
      } in
      (resolve input (subject user (restricted ∷ granting ∷ [])) page read).allowed ≡ true

  abbrev pub LockRemovesMutationUnlessSubjectCanManageLock :
      UserId Uuid → GroupId Uuid → GroupId Uuid → Type 0
  LockRemovesMutationUnlessSubjectCanManageLock user editor locker =
      let input : PolicyInput Uuid = record {
        roles = role editor (edit ∷ []) [] ∷ role locker (lock ∷ []) [] ∷ [];
        category_overrides = [];
      } in
      let locked : PagePolicyState = record { locked = true; subject_is_author = false } in
      ((resolve input (subject user (editor ∷ [])) locked edit).reason ≡ page_locked)
      × ((resolve input (subject user (editor ∷ locker ∷ [])) locked edit).allowed ≡ true)

  abbrev pub UnlockedAuthorCanManageAuthors : UserId Uuid → GroupId Uuid → Type 0
  UnlockedAuthorCanManageAuthors user everyone =
      let input : PolicyInput Uuid = record {
        roles = role everyone [] [] ∷ [];
        category_overrides = [];
      } in
      let author_page : PagePolicyState = record { locked = false; subject_is_author = true } in
      (resolve input (subject user (everyone ∷ [])) author_page manage_authors).reason
      ≡ author_grant

  abbrev pub InactiveAccountIsDeniedAndActiveSuperuserBypassesRoles : UserId Uuid → Type 0
  InactiveAccountIsDeniedAndActiveSuperuserBypassesRoles user =
      let input : PolicyInput Uuid = record { roles = []; category_overrides = [] } in
      let inactive : PolicySubject Uuid = record {
        user_id = some user;
        is_active = false;
        is_superuser = true;
        role_ids = [];
      } in
      ((resolve input inactive page admin).reason ≡ inactive_account)
      × ((resolve input (record inactive { is_active = true }) page admin).reason ≡ superuser)

  abbrev pub DamagedPolicyFailsClosedWithReason : UserId Uuid → GroupId Uuid → Type 0
  DamagedPolicyFailsClosedWithReason user missing =
      let input : PolicyInput Uuid = record { roles = []; category_overrides = [] } in
      resolve input (subject user (missing ∷ [])) page read
      ≡ deny (invalid_policy (unknown_subject_role missing))

  abbrev pub RoleInputOrderDoesNotChangeDecision :
      UserId Uuid → GroupId Uuid → GroupId Uuid → Type 0
  RoleInputOrderDoesNotChangeDecision user first second =
      let roles = role first (read ∷ []) [] ∷ role second (read ∷ []) [] ∷ [] in
      let policy_subject = subject user (first ∷ second ∷ []) in
      resolve (record { roles = roles; category_overrides = [] }) policy_subject page read
      ≡ resolve (record { roles = reverse roles; category_overrides = [] }) policy_subject page read
