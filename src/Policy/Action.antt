-- ===== src/Policy/Action.antt =====
-- `Action` with its derived order, and the data types of crates/core/src/policy.rs.
use wiki_next.Base.Keyed.{Ranked}
use wiki_next.Base.{ℕ, ◌≡◌, Bool, Option, List, arith}
use wiki_next.Id.{UserId, GroupId}

pub data Action : Type 0 where
  read edit create delete restore rename manage_files manage_authors : Action
  tag rate comment moderate manage_acl lock admin : Action

-- The derived order: the place in the declaration.
abbrev pub action_rank : Action → ℕ
action_rank read = 0
action_rank edit = 1
action_rank create = 2
action_rank delete = 3
action_rank restore = 4
action_rank rename = 5
action_rank manage_files = 6
action_rank manage_authors = 7
action_rank tag = 8
action_rank rate = 9
action_rank comment = 10
action_rank moderate = 11
action_rank manage_acl = 12
action_rank lock = 13
action_rank admin = 14

pub action_rank-injective : (a b : Action) → action_rank a ≡ action_rank b → a ≡ b
action_rank-injective a b h = ground arith

instance abbrev pub action_ranked : Ranked Action
action_ranked = record { rank = action_rank; rank-injective = action_rank-injective }

module _ (Uuid : Type 0) where
  pub record RolePolicy : Type 0 where
    pub role_id : GroupId Uuid
    pub allows : List Action
    pub restrictions : List Action

  pub record RoleOverride : Type 0 where
    pub role_id : GroupId Uuid
    pub allows : List Action
    pub restrictions : List Action

  pub record PolicyInput : Type 0 where
    pub roles : List RolePolicy
    pub category_overrides : List RoleOverride

  pub record PolicySubject : Type 0 where
    pub user_id : Option (UserId Uuid)
    pub is_active : Bool
    pub is_superuser : Bool
    pub role_ids : List (GroupId Uuid)

  pub data PolicyIssue : Type 0 where
    duplicate_role : GroupId Uuid → PolicyIssue
    duplicate_override : GroupId Uuid → PolicyIssue
    unknown_subject_role : GroupId Uuid → PolicyIssue
    unknown_override_role : GroupId Uuid → PolicyIssue

  pub data DecisionReason : Type 0 where
    inactive_account : DecisionReason
    superuser : DecisionReason
    role_grant : GroupId Uuid → DecisionReason
    author_grant : DecisionReason
    page_locked : DecisionReason
    no_grant : DecisionReason
    invalid_policy : PolicyIssue → DecisionReason

  pub record Decision : Type 0 where
    pub allowed : Bool
    pub reason : DecisionReason

pub record PagePolicyState : Type 0 where
  pub locked : Bool
  pub subject_is_author : Bool
