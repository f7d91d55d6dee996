-- ===== src/Config.antt =====
-- crates/app/src/config.rs: the configuration, its validation and its loading.
pub mod Types
pub mod Validate
pub mod DatabaseUrl
pub mod SearchUrl
pub mod Identifier
pub mod Valid
pub mod Environment
pub mod Load
pub mod Overrides
pub mod Laws
pub mod Samples
mod Runs
pub mod Migrating
mod UnitTests
