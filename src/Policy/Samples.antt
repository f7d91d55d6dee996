-- ===== src/Policy/Samples.antt =====
-- Runs of the policy on concrete input, and the theorems at it.
use wiki_next.Base.{ℕ, ◌≡◌, refl, Bool, true, false, some, List, [], ◌∷◌, arith}
use mathlib.Core.List.{Permᴰ}
use wiki_next.Base.Keyed.{Ranked, contains, add, extend, retain, get, insert, or_insert}
use wiki_next.Id.{GroupId, group_ranked}
use wiki_next.Policy.Action.{
  Action, read, edit, lock, admin, manage_authors, RolePolicy, RoleOverride, PolicyInput,
  PolicySubject, PagePolicyState, PolicyIssue, unknown_subject_role, superuser, inactive_account,
  no_grant, page_locked, author_grant, role_grant, invalid_policy, Decision, action_ranked,
}
use wiki_next.Policy.Resolve.{
  is_removed_by_page_lock, allow, deny, invalid, unique_roles, unique_overrides, unknown_role,
  effective_grants, decide_grants, resolve_roles, resolve, Roles, Overrides,
}
use wiki_next.Policy.Grants.{first, role_permits, get-effective_grants}
use wiki_next.Policy.Valid.{distinct, role_ids_of, override_ids_of}
use wiki_next.Policy.Issues.{IssueHolds}
use wiki_next.Policy.Decision.{is_valid, decision, listed_permits}
use wiki_next.Policy.Laws.{resolve-eq-decision, resolve_fails_closed, resolve_locked}
use mathlib.Core.Quot
use wiki_next.Policy.Unordered.{Rules, resolve_unordered}
use wiki_next.Policy.Order.{resolve-with_roles, resolve-perm}

instance abbrev nat_ranked : Ranked ℕ
nat_ranked = record { rank = λ n. n; rank-injective = λ a b h. h }

abbrev group : ℕ → GroupId ℕ
group n = record { into_uuid = n }

abbrev role : ℕ → List Action → List Action → RolePolicy ℕ
role n allows restrictions = record {
  role_id = group n;
  allows = allows;
  restrictions = restrictions;
}

abbrev override : ℕ → List Action → List Action → RoleOverride ℕ
override n allows restrictions = record {
  role_id = group n;
  allows = allows;
  restrictions = restrictions;
}

abbrev input : PolicyInput ℕ
input = record {
  roles =
      role 1 (read ∷ edit ∷ []) (edit ∷ []) ∷ role 2 (edit ∷ []) [] ∷ role 3 (lock ∷ []) [] ∷ [];
  category_overrides = override 1 [] (read ∷ []) ∷ override 2 (read ∷ []) [] ∷ [];
}

abbrev subject : List (GroupId ℕ) → PolicySubject ℕ
subject ids = record {
  user_id = some (record { into_uuid = 9 });
  is_active = true;
  is_superuser = false;
  role_ids = ids;
}

abbrev open_page : PagePolicyState
open_page = record { locked = false; subject_is_author = false }

abbrev locked_page : PagePolicyState
locked_page = record { locked = true; subject_is_author = false }

abbrev run : PolicyInput ℕ → PolicySubject ℕ → PagePolicyState → Action → Decision ℕ
unfolding resolve resolve_roles unique_roles unique_overrides unknown_role effective_grants
    decide_grants allow deny invalid is_removed_by_page_lock get insert or_insert contains add
    extend retain
run = resolve

runs :
    (run input (subject (group 1 ∷ [])) open_page edit ≡ deny no_grant)
    × (run input (subject (group 1 ∷ group 2 ∷ [])) open_page edit ≡ allow (role_grant (group 2)))
    × (run input (subject (group 1 ∷ group 2 ∷ [])) open_page read ≡ allow (role_grant (group 2)))
    × (run input (subject (group 2 ∷ [])) locked_page edit ≡ deny page_locked)
    × (run input (subject (group 2 ∷ group 3 ∷ [])) locked_page edit ≡ allow (role_grant (group 2)))
    × (run input
          (subject (group 1 ∷ []))
          (record { locked = false; subject_is_author = true })
          manage_authors
        ≡ allow author_grant)
    × (run input (record (subject []) { is_active = false; is_superuser = true }) open_page admin
        ≡ deny inactive_account)
    × (run input (record (subject []) { is_superuser = true }) open_page admin ≡ allow superuser)
    × (run input (subject (group 7 ∷ [])) open_page read
        ≡ deny (invalid_policy (unknown_subject_role (group 7))))
unfolding resolve resolve_roles unique_roles unique_overrides unknown_role effective_grants
    decide_grants allow deny invalid is_removed_by_page_lock get insert or_insert contains add
    extend retain
runs = (refl, refl, refl, refl, refl, refl, refl, refl, refl)

resolve-eq-decision_example :
    resolve input (subject (group 1 ∷ group 2 ∷ [])) open_page edit
    ≡ decision input (subject (group 1 ∷ group 2 ∷ [])) open_page edit
unfolding is_valid distinct contains
resolve-eq-decision_example =
    resolve-eq-decision input (subject (group 1 ∷ group 2 ∷ [])) open_page edit refl refl refl

resolve_fails_closed_example :
    (issue : PolicyIssue ℕ) × (resolve input (subject (group 1 ∷ group 7 ∷ [])) open_page read
      ≡ deny (invalid_policy issue))
    × IssueHolds
        (role_ids_of input.roles)
        (override_ids_of input.category_overrides)
        (group 1 ∷ group 7 ∷ [])
        issue
unfolding is_valid distinct contains
resolve_fails_closed_example =
    resolve_fails_closed input (subject (group 1 ∷ group 7 ∷ [])) open_page read refl refl refl

resolve_locked_example :
    ((locker : GroupId ℕ) × (contains locker (group 2 ∷ group 3 ∷ []) ≡ true)
      × (listed_permits input lock locker ≡ true))
    × ((holder : GroupId ℕ) × (contains holder (group 2 ∷ group 3 ∷ []) ≡ true)
        × (listed_permits input edit holder ≡ true))
unfolding runs
resolve_locked_example =
    resolve_locked input (subject (group 2 ∷ group 3 ∷ [])) locked_page edit refl refl refl refl

widened :
    (id : GroupId ℕ)
    → contains id (group 2 ∷ []) ≡ true
    → contains id (group 1 ∷ group 2 ∷ []) ≡ true
unfolding contains
widened id h = ground arith

resolve-with_roles_example :
    (resolve input (subject (group 1 ∷ group 2 ∷ [])) open_page edit).allowed ≡ true
unfolding runs
resolve-with_roles_example =
    resolve-with_roles input (subject (group 2 ∷ [])) (group 1 ∷ group 2 ∷ []) widened open_page
      edit refl refl

abbrev reordered : PolicyInput ℕ
reordered = record input {
  roles =
      role 2 (edit ∷ []) [] ∷ role 1 (read ∷ edit ∷ []) (edit ∷ []) ∷ role 3 (lock ∷ []) [] ∷ [];
}

resolve-perm_example :
    resolve input (subject (group 1 ∷ group 2 ∷ [])) open_page read
    ≡ resolve reordered (subject (group 1 ∷ group 2 ∷ [])) open_page read
unfolding is_valid distinct contains
resolve-perm_example =
    resolve-perm {input = input} {other = reordered} (Permᴰ.swap refl refl)
      (Permᴰ.cons refl (Permᴰ.cons refl Permᴰ.nil)) (subject (group 1 ∷ group 2 ∷ [])) open_page
      read refl

resolve_unordered_example :
    (permits : Rules ℕ → Bool) × ((policies : PolicyInput ℕ)
      → permits (Quot.mk policies)
        ≡ (resolve policies (subject (group 1 ∷ group 2 ∷ [])) open_page read).allowed)
    × ((other : Rules ℕ → Bool)
        → ((policies : PolicyInput ℕ)
            → other (Quot.mk policies)
              ≡ (resolve policies (subject (group 1 ∷ group 2 ∷ [])) open_page read).allowed)
        → (rules : Rules ℕ) → other rules ≡ permits rules)
resolve_unordered_example = resolve_unordered (subject (group 1 ∷ group 2 ∷ [])) open_page read

-- The two orders are one element, so that the permission is the same.
reordered_same : ◌≡◌ {A = Rules ℕ} (Quot.mk input) (Quot.mk reordered)
reordered_same = Quot.sound (Permᴰ.swap refl refl, Permᴰ.cons refl (Permᴰ.cons refl Permᴰ.nil))

abbrev roles : Roles ℕ
roles = (group 1, role 1 (read ∷ edit ∷ []) (edit ∷ [])) ∷ (group 2, role 2 (edit ∷ []) []) ∷ []

abbrev overrides : Overrides ℕ
overrides = (group 2, override 2 (read ∷ []) []) ∷ []

get-effective_grants_example :
    get edit (effective_grants (subject (group 1 ∷ group 2 ∷ [])) roles overrides)
    ≡ first (role_permits roles overrides edit) (group 1 ∷ group 2 ∷ [])
get-effective_grants_example =
    get-effective_grants (subject (group 1 ∷ group 2 ∷ [])) roles overrides edit
