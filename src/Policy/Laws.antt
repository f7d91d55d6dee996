-- ===== src/Policy/Laws.antt =====
-- What `resolve` of crates/core/src/policy.rs decides.
use wiki_next.Base.{
  ◌≡◌, ap, inl, inr, Bool, true, false, some, List, [], ◌∷◌, arith, Option-cases, is_some,
}
use wiki_next.Base.Keyed.{Ranked, ◌=ₖ◌, =ₖ_sound, =ₖ_refl, contains}
use wiki_next.Id.{GroupId, group_ranked}
use wiki_next.Policy.Action.{
  Action, action_ranked, lock, PolicyInput, PolicySubject, PagePolicyState, PolicyIssue,
  invalid_policy, role_grant,
}
use wiki_next.Policy.Resolve.{allow, deny, resolve}
use wiki_next.Policy.Grants.{first}
use wiki_next.Policy.Valid.{role_ids_of, override_ids_of}
use wiki_next.Policy.Issues.{IssueHolds}
use wiki_next.Policy.Decision.{
  is_locked_mutation, is_valid, listed_permits, granting, decision, resolve_roles-Outcome,
}

module _ {Uuid : Type 0} ⦃u : Ranked Uuid⦄ where
  module _ (input : PolicyInput Uuid) (subject : PolicySubject Uuid) (page : PagePolicyState)
      (action : Action) (active : subject.is_active ≡ true)
      (ordinary : subject.is_superuser ≡ false) where
    -- For an active account that is no superuser, on input without repeated or unknown identifiers,
    -- `resolve` is the decision that the rules give on the lists themselves: a locked page removes
    -- the six mutations unless a role of the subject permits `lock`; an author of an unlocked page
    -- manages its authors; else the first of the subject's roles that permits the action grants it.
    pub resolve-eq-decision :
        is_valid input subject ≡ true
        → resolve input subject page action ≡ decision input subject page action
    unfolding resolve
    resolve-eq-decision v = ground (arith, resolve_roles-Outcome input subject page action)

    -- On any other input such an account is denied, and the reason names an identifier that is
    -- repeated or unknown.
    pub resolve_fails_closed :
        is_valid input subject ≡ false
        → (issue : PolicyIssue Uuid) × (resolve input subject page action
            ≡ deny (invalid_policy issue))
          × IssueHolds
              (role_ids_of input.roles)
              (override_ids_of input.category_overrides)
              subject.role_ids
              issue
    unfolding resolve
    resolve_fails_closed v = elim (resolve_roles-Outcome input subject page action) [
      | inl (valid, _) ↦ cc
      | inr (_, (issue, e, real)) ↦ (issue, ground arith, real)
    ]

  pub first_sound :
      (p : GroupId Uuid → Bool) (ids : List (GroupId Uuid)) {id : GroupId Uuid}
      → first p ids ≡ some id
      → (contains id ids ≡ true) × (p id ≡ true)
  unfolding first contains
  first_sound p [] h = cc
  first_sound p (j ∷ ids) {id} h = ground (arith, first_sound p ids {id = id}, =ₖ_refl j)

  pub first_complete :
      (p : GroupId Uuid → Bool) (ids : List (GroupId Uuid)) (id : GroupId Uuid)
      → contains id ids ≡ true
      → p id ≡ true
      → is_some (first p ids) ≡ true
  unfolding first contains
  first_complete p [] id h k = cc
  first_complete p (j ∷ ids) id h k =
      ground (arith, first_complete p ids id, λ (e : (id =ₖ j) ≡ true). ap p (=ₖ_sound id j e))

  -- What a decision that allows one of the six mutations of a locked page rests on.
  decision_locked :
      (input : PolicyInput Uuid) (subject : PolicySubject Uuid) (page : PagePolicyState)
      (action : Action)
      → page.locked ≡ true
      → is_locked_mutation action ≡ true
      → (decision input subject page action).allowed ≡ true
      → (is_some (granting input subject lock) ≡ true)
        × (is_some (granting input subject action) ≡ true)
  unfolding decision allow deny
  decision_locked input subject page action locked removed allowed = ground arith

  holder_of :
      (input : PolicyInput Uuid) (subject : PolicySubject Uuid) (action : Action)
      → is_some (granting input subject action) ≡ true
      → (id : GroupId Uuid) × (contains id subject.role_ids ≡ true)
        × (listed_permits input action id ≡ true)
  unfolding granting
  holder_of input subject action h =
      elim (Option-cases (first (listed_permits input action) subject.role_ids)) [
        | inl absent ↦ ground arith
        | inr (id, found) ↦
            let s = first_sound (listed_permits input action) subject.role_ids found in
            (id, s.0, s.1)
      ]

  -- If an account that is no superuser may change a locked page by one of the six mutations, then
  -- one of its roles permits `lock`, and one permits the mutation itself.
  pub resolve_locked :
      (input : PolicyInput Uuid) (subject : PolicySubject Uuid) (page : PagePolicyState)
      (action : Action)
      → subject.is_superuser ≡ false
      → page.locked ≡ true
      → is_locked_mutation action ≡ true
      → (resolve input subject page action).allowed ≡ true
      → ((locker : GroupId Uuid) × (contains locker subject.role_ids ≡ true)
          × (listed_permits input lock locker ≡ true))
        × ((holder : GroupId Uuid) × (contains holder subject.role_ids ≡ true)
            × (listed_permits input action holder ≡ true))
  unfolding resolve deny
  resolve_locked input subject page action ordinary locked removed allowed =
      elim (resolve_roles-Outcome input subject page action) [
        | inl (valid, e) ↦
            let d = decision_locked input subject page action locked removed (ground arith) in
            (holder_of input subject lock d.0, holder_of input subject action d.1)
        | inr (_, (issue, e, real)) ↦ ground arith
      ]

  decision-role_grant :
      (input : PolicyInput Uuid) (subject : PolicySubject Uuid) (page : PagePolicyState)
      (action : Action) {id : GroupId Uuid}
      → (decision input subject page action).reason ≡ role_grant id
      → (granting input subject action ≡ some id)
        × ((decision input subject page action).allowed ≡ true)
  unfolding decision allow deny
  decision-role_grant input subject page action {id} h = ground arith

  -- A role that is named as the reason of a grant is the first of the subject's roles that
  -- permits the action, and the action is allowed.
  resolve-role_grant :
      (input : PolicyInput Uuid) (subject : PolicySubject Uuid) (page : PagePolicyState)
      (action : Action) {id : GroupId Uuid}
      → (resolve input subject page action).reason ≡ role_grant id
      → (first (listed_permits input action) subject.role_ids ≡ some id)
        × ((resolve input subject page action).allowed ≡ true)
  unfolding resolve allow deny granting
  resolve-role_grant input subject page action {id} h =
      elim (resolve_roles-Outcome input subject page action) [
        | inl (valid, e) ↦ ground (arith, decision-role_grant input subject page action {id = id})
        | inr (_, (issue, e, real)) ↦ ground arith
      ]
