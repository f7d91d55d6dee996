-- ===== src/Policy/Order.antt =====
-- How the decision of `resolve` of crates/core/src/policy.rs depends on its input: more roles never
-- take a permission away, and the order of the policies is of no account.
use wiki_next.Base.{
  ◌≡◌, refl, sym, ap, ◌∙◌, inl, inr, Bool, true, List, arith, Option-cases, is_some, all,
}
use mathlib.Core.List.{Permᴰ}
use wiki_next.Base.Keyed.{Ranked, contains}
use wiki_next.Id.{GroupId, group_ranked}
use wiki_next.Policy.Action.{
  Action, action_ranked, lock, PolicyInput, PolicySubject, PagePolicyState,
}
use wiki_next.Policy.Resolve.{allow, deny, resolve}
use wiki_next.Policy.Grants.{first}
use wiki_next.Policy.Valid.{
  role_ids_of, override_ids_of, find_role, find_override, distinct, keys_by, find_by,
}
use wiki_next.Policy.Decision.{
  is_valid, listed_permits, granting, decision, resolve_roles-Outcome, all-congr, first-congr,
}
use wiki_next.Policy.Laws.{first_sound, first_complete}

module _ {Uuid : Type 0} ⦃u : Ranked Uuid⦄ where
  -- The subject with other roles.
  abbrev pub with_roles : PolicySubject Uuid → List (GroupId Uuid) → PolicySubject Uuid
  with_roles subject ids = record subject { role_ids = ids }

  module _ (input : PolicyInput Uuid) (subject : PolicySubject Uuid) (more : List (GroupId Uuid))
      (kept : (id : GroupId Uuid)
        → contains id subject.role_ids ≡ true
        → contains id more ≡ true) where
    is_some-granting :
        (action : Action)
        → is_some (granting input subject action) ≡ true
        → is_some (granting input (with_roles subject more) action) ≡ true
    unfolding granting
    is_some-granting action h =
        elim (Option-cases (first (listed_permits input action) subject.role_ids)) [
          | inl absent ↦ ground arith
          | inr (id, found) ↦
              let s = first_sound (listed_permits input action) subject.role_ids found in
              first_complete (listed_permits input action) more id (kept id s.0) s.1
        ]

    decision-with_roles :
        (page : PagePolicyState) (action : Action)
        → (decision input subject page action).allowed ≡ true
        → (decision input (with_roles subject more) page action).allowed ≡ true
    unfolding decision allow deny
    decision-with_roles page action h =
        ground (arith, is_some-granting action, is_some-granting lock)

    -- A subject that is given more roles, all of them in the policy, is still allowed whatever it
    -- was allowed before.
    pub resolve-with_roles :
        (page : PagePolicyState) (action : Action)
        → all (λ id. contains id (role_ids_of input.roles)) more ≡ true
        → (resolve input subject page action).allowed ≡ true
        → (resolve input (with_roles subject more) page action).allowed ≡ true
    unfolding resolve allow deny is_valid
    resolve-with_roles page action known allowed =
        elim (resolve_roles-Outcome input subject page action) [
          | inl (valid, e) ↦
              elim (resolve_roles-Outcome input (with_roles subject more) page action) [
                | inl (_, e') ↦ ground (arith, decision-with_roles page action)
                | inr (invalid, _) ↦ ground arith
              ]
          | inr (_, (issue, e, real)) ↦ ground arith
        ]

module _ {A K : Type 0} ⦃o : Ranked K⦄ (key : A → K) where
  contains-perm :
      (k : K) {xs ys : List A}
      → Permᴰ xs ys
      → contains k (keys_by key xs) ≡ contains k (keys_by key ys)
  unfolding contains
  contains-perm k Permᴰ.nil = refl
  contains-perm k (Permᴰ.cons {a} {b} e p) = ground (arith, contains-perm k p, ap key e)
  contains-perm k (Permᴰ.swap e e') = ground (arith, ap key e, ap key e')
  contains-perm k (Permᴰ.trans p q) = contains-perm k p ∙ contains-perm k q

  distinct-perm :
      {xs ys : List A} → Permᴰ xs ys → distinct (keys_by key xs) ≡ distinct (keys_by key ys)
  unfolding distinct contains
  distinct-perm Permᴰ.nil = refl
  distinct-perm (Permᴰ.cons {a} e p) =
      ground (arith, distinct-perm p, contains-perm (key a) p, ap key e)
  distinct-perm (Permᴰ.swap e e') = ground (arith, ap key e, ap key e')
  distinct-perm (Permᴰ.trans p q) = distinct-perm p ∙ distinct-perm q

  find_by-perm :
      (k : K) {xs ys : List A}
      → Permᴰ xs ys
      → distinct (keys_by key xs) ≡ true
      → find_by key k xs ≡ find_by key k ys
  unfolding find_by distinct contains
  find_by-perm k Permᴰ.nil d = refl
  find_by-perm k (Permᴰ.cons e p) d = ground (arith, find_by-perm k p, ap key e)
  find_by-perm k (Permᴰ.swap e e') d = ground (arith, ap key e, ap key e')
  find_by-perm k (Permᴰ.trans p q) d =
      find_by-perm k p d ∙ find_by-perm k q (sym (distinct-perm p) ∙ d)

  all-perm :
      (p : K → Bool) {xs ys : List A}
      → Permᴰ xs ys
      → all p (keys_by key xs) ≡ all p (keys_by key ys)
  all-perm p Permᴰ.nil = refl
  all-perm p (Permᴰ.cons e q) = ground (arith, all-perm p q, ap (λ x. p (key x)) e)
  all-perm p (Permᴰ.swap e e') = ground (arith, ap (λ x. p (key x)) e, ap (λ x. p (key x)) e')
  all-perm p (Permᴰ.trans q r) = all-perm p q ∙ all-perm p r

module _ {Uuid : Type 0} ⦃u : Ranked Uuid⦄ {input other : PolicyInput Uuid}
    (same_roles : Permᴰ input.roles other.roles)
    (same_overrides : Permᴰ input.category_overrides other.category_overrides)
    (subject : PolicySubject Uuid) where
  pub is_valid-perm : is_valid input subject ≡ is_valid other subject
  unfolding is_valid
  is_valid-perm = ground (
    arith,
    distinct-perm (λ r. r.role_id) same_roles,
    distinct-perm (λ o. o.role_id) same_overrides,
    all-congr _ _ subject.role_ids (λ id. contains-perm (λ r. r.role_id) id same_roles),
    all-congr _ _ (override_ids_of input.category_overrides)
        (λ id. contains-perm (λ r. r.role_id) id same_roles),
    all-perm (λ o. o.role_id) (λ id. contains id (role_ids_of other.roles)) same_overrides,
  )

  listed_permits-perm :
      (action : Action) (id : GroupId Uuid)
      → is_valid input subject ≡ true
      → listed_permits input action id ≡ listed_permits other action id
  unfolding listed_permits is_valid find_role find_override
  listed_permits-perm action id valid = ground (
    arith,
    find_by-perm (λ r. r.role_id) id same_roles,
    find_by-perm (λ o. o.role_id) id same_overrides,
  )

  decision-perm :
      (page : PagePolicyState) (action : Action)
      → is_valid input subject ≡ true
      → decision input subject page action ≡ decision other subject page action
  unfolding decision granting
  decision-perm page action valid =
      let same = λ (a : Action).
        first-congr (listed_permits input a) (listed_permits other a) subject.role_ids
          (λ id. listed_permits-perm a id valid) in
      rw (same action, same lock)

  -- Where no identifier is repeated or unknown, the order in which the roles and the overrides are
  -- listed does not change the decision.
  pub resolve-perm :
      (page : PagePolicyState) (action : Action)
      → is_valid input subject ≡ true
      → resolve input subject page action ≡ resolve other subject page action
  unfolding resolve
  resolve-perm page action valid = elim (resolve_roles-Outcome input subject page action) [
    | inl (_, e) ↦ elim (resolve_roles-Outcome other subject page action) [
      | inl (_, e') ↦ ground (arith, decision-perm page action valid)
      | inr (invalid, _) ↦ ground (arith, is_valid-perm)
    ]
    | inr (invalid, _) ↦ ground arith
  ]
