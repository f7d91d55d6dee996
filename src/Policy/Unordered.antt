-- ===== src/Policy/Unordered.antt =====
-- The permission of `resolve` of crates/core/src/policy.rs as a function of the policies without
-- their order.
use wiki_next.Base.{◌≡◌, refl, inl, inr, Bool, arith}
use mathlib.Core.Bool.{Bool-set}
use mathlib.Core.List.{Permᴰ}
use mathlib.Core.Quot
use mathlib.Core.Quot.{Quot}
use wiki_next.Base.Keyed.{Ranked}
use wiki_next.Policy.Action.{Action, PolicyInput, PolicySubject, PagePolicyState}
use wiki_next.Policy.Resolve.{allow, deny, resolve}
use wiki_next.Policy.Decision.{resolve_roles-Outcome}
use wiki_next.Policy.Order.{is_valid-perm, resolve-perm}

-- The same roles and the same overrides in any order.
abbrev pub SameRules : {Uuid : Type 0} → PolicyInput Uuid → PolicyInput Uuid → Type 0
SameRules input other =
    Permᴰ input.roles other.roles × Permᴰ input.category_overrides other.category_overrides

-- Policies and overrides without an order.
abbrev pub Rules : Type 0 → Type 0
Rules Uuid = Quot (SameRules {Uuid = Uuid})

module _ {Uuid : Type 0} ⦃u : Ranked Uuid⦄ where
  module _ (subject : PolicySubject Uuid) (page : PagePolicyState) (action : Action) where
    -- On input that is refused the order may change the issue, but not the permission.
    allowed-perm :
        (input other : PolicyInput Uuid)
        → SameRules input other
        → (resolve input subject page action).allowed ≡ (resolve other subject page action).allowed
    unfolding resolve allow deny
    allowed-perm input other (roles, overrides) =
        let valid = is_valid-perm roles overrides subject in
        elim (resolve_roles-Outcome input subject page action) [
          | inl (ordered, e) ↦
              ground (arith, resolve-perm roles overrides subject page action ordered)
          | inr (refused, (issue, e, real)) ↦
              elim (resolve_roles-Outcome other subject page action) [
                | inl (ordered, e') ↦ ground arith
                | inr (refused', (issue', e', real')) ↦ ground arith
              ]
        ]

    abbrev permission : Rules Uuid → Bool
    permission =
        Quot.lift Bool-set (λ input. (resolve input subject page action).allowed) allowed-perm

    -- There is one function of the policies without an order, and no other, that gives the permission
    -- of `resolve` for every order in which they can be listed, refused input included.
    pub resolve_unordered :
        (permits : Rules Uuid → Bool) × ((input : PolicyInput Uuid)
          → permits (Quot.mk input) ≡ (resolve input subject page action).allowed)
        × ((other : Rules Uuid → Bool)
            → ((input : PolicyInput Uuid)
                → other (Quot.mk input) ≡ (resolve input subject page action).allowed)
            → (rules : Rules Uuid) → other rules ≡ permits rules)
    resolve_unordered = (
      permission,
      λ input. refl,
      λ other same. Quot.ind (λ rules. Bool-set (other rules) (permission rules)) same,
    )
