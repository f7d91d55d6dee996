-- ===== src/Render.antt =====
-- crates/render/src/lib.rs: the settings of the `ftml` crate.
use wiki_next.Base.{String}

-- `WikitextSettings::from_mode`, with the modes and layouts that are used.
pub record FtmlApi : Type 1 where
  pub WikitextMode : Type 0
  pub Layout : Type 0
  pub WikitextSettings : Type 0
  pub page : WikitextMode
  pub wikidot : Layout
  pub from_mode : WikitextMode → Layout → WikitextSettings

abbrev pub expected_ftml_version : String
expected_ftml_version = "1.41.0"

unfoldable pub m0_compatibility_settings : (F : FtmlApi) → F.WikitextSettings
m0_compatibility_settings F = F.from_mode F.page F.wikidot
