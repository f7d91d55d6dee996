-- ===== src/Id.antt =====
-- The identifiers of crates/core/src/id.rs: `uuid_id!` wraps a `Uuid` in a type of its own. The
-- `uuid` crate is a parameter: a type of identifiers with the order that `Ord` derives.
mod UnitTests
use wiki_next.Base.Keyed.{Ranked}
use wiki_next.Base.{ℕ, ◌≡◌, ap}

-- `uuid_id!(UserId)`.
pub record UserId (Uuid : Type 0) : Type 0 where
  pub into_uuid : Uuid

-- `uuid_id!(PageId)`.
pub record PageId (Uuid : Type 0) : Type 0 where
  pub into_uuid : Uuid

-- `uuid_id!(GroupId)`.
pub record GroupId (Uuid : Type 0) : Type 0 where
  pub into_uuid : Uuid

abbrev pub group_rank : {Uuid : Type 0} ⦃u : Ranked Uuid⦄ → GroupId Uuid → ℕ
group_rank ⦃u⦄ g = u.rank g.into_uuid

pub group_rank-injective :
    {Uuid : Type 0} ⦃u : Ranked Uuid⦄ (a b : GroupId Uuid) → group_rank a ≡ group_rank b → a ≡ b
group_rank-injective ⦃u⦄ a b h =
    ap (λ x. record { into_uuid = x }) (u.rank-injective a.into_uuid b.into_uuid h)

-- The derived order of `GroupId` is that of the `Uuid`.
instance abbrev pub group_ranked : {Uuid : Type 0} ⦃u : Ranked Uuid⦄ → Ranked (GroupId Uuid)
group_ranked ⦃u⦄ = record { rank = group_rank; rank-injective = group_rank-injective }
