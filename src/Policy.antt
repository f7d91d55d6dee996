-- ===== src/Policy.antt =====
-- crates/core/src/policy.rs: the types of the compatibility policy.
mod Action
mod Resolve
pub mod Grants
pub mod Valid
pub mod Issues
pub mod Decision
pub mod Laws
pub mod Order
pub mod Unordered
pub mod UnitTests
mod Samples
pub use Action.*
unfoldable pub use Resolve.*
