-- ===== src/Policy/UnitTests/Pass.antt =====
-- The tests of crates/core/src/policy.rs pass whatever different identifiers they draw.
use wiki_next.Base.{◌≢◌, refl, arith}
use wiki_next.Base.Keyed.{Ranked, extend, add, contains, retain, get, insert, or_insert}
use wiki_next.Id.{UserId, GroupId, group_rank, group_rank-injective}
use wiki_next.Policy.Resolve.{
  is_removed_by_page_lock, allow, deny, invalid, unique_roles, unique_overrides, unknown_role,
  effective_grants, decide_grants, resolve_roles, resolve,
}
use wiki_next.Policy.UnitTests.{
  RestrictionRemovesAllowInsideSameRole, GrantInAnotherRoleSurvivesARestriction,
  CategoryOverrideIsAppliedPerRoleBeforeUnion, LockRemovesMutationUnlessSubjectCanManageLock,
  UnlockedAuthorCanManageAuthors, InactiveAccountIsDeniedAndActiveSuperuserBypassesRoles,
  DamagedPolicyFailsClosedWithReason, RoleInputOrderDoesNotChangeDecision,
}

-- What the tests below open.
opened : Unit {0}
unfolding resolve resolve_roles unique_roles unique_overrides unknown_role effective_grants
    decide_grants allow deny invalid is_removed_by_page_lock get insert or_insert contains add
    extend retain
opened = tt

module _ {Uuid : Type 0} ⦃u : Ranked Uuid⦄ (user : UserId Uuid) where
  same_role_passes : (everyone : GroupId Uuid) → RestrictionRemovesAllowInsideSameRole user everyone
  unfolding opened
  same_role_passes everyone = ground arith

  author_passes : (everyone : GroupId Uuid) → UnlockedAuthorCanManageAuthors user everyone
  unfolding opened
  author_passes everyone = ground arith

  account_passes : InactiveAccountIsDeniedAndActiveSuperuserBypassesRoles user
  unfolding opened
  account_passes = (refl, refl)

  damaged_passes : (missing : GroupId Uuid) → DamagedPolicyFailsClosedWithReason user missing
  unfolding opened
  damaged_passes missing = ground arith

  module _ (a b : GroupId Uuid) (apart : a ≢ b) where
    ranks_apart : group_rank a ≢ group_rank b
    ranks_apart same = apart (group_rank-injective a b same)

    another_role_passes : GrantInAnotherRoleSurvivesARestriction user a b
    unfolding opened
    another_role_passes = let different = ranks_apart in (ground arith, ground arith)

    override_passes : CategoryOverrideIsAppliedPerRoleBeforeUnion user a b
    unfolding opened
    override_passes = let different = ranks_apart in ground arith

    lock_passes : LockRemovesMutationUnlessSubjectCanManageLock user a b
    unfolding opened
    lock_passes = let different = ranks_apart in (ground arith, ground arith)

    order_passes : RoleInputOrderDoesNotChangeDecision user a b
    unfolding opened
    order_passes = let different = ranks_apart in ground arith
