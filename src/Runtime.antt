-- ===== src/Runtime.antt =====
-- The runtime of crates/app/src/runtime.rs, in its parts.
pub mod Report
pub mod Services
pub mod Cache
pub mod Startup
pub mod Separate
pub mod LocalDisk
pub mod Samples
mod DiskSamples
mod UnitTests
