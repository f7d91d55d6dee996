-- ===== src/Id/UnitTests.antt =====
-- The test of crates/core/src/id.rs for every type of UUIDs.
use wiki_next.Base.{◌≡◌, refl}
use wiki_next.Id.{UserId, PageId}

-- `UserId::new`.
abbrev user_id : {Uuid : Type 0} → Uuid → UserId Uuid
user_id value = record { into_uuid = value }

-- `PageId::new`.
abbrev page_id : {Uuid : Type 0} → Uuid → PageId Uuid
page_id value = record { into_uuid = value }

abbrev IdentifiersRoundTripWithoutBecomingInterchangeable : Type 1
IdentifiersRoundTripWithoutBecomingInterchangeable =
    (Uuid : Type 0) (value : Uuid)
    → ((user_id value).into_uuid ≡ value) × ((page_id value).into_uuid ≡ value)

round_trip : IdentifiersRoundTripWithoutBecomingInterchangeable
round_trip Uuid value = (refl, refl)
