-- ===== src/Server.antt =====
-- crates/server/src/lib.rs: the HTTP server, in its parts.
pub mod Http
pub mod Layers
pub mod Good
pub mod Hardened
pub mod Routes
pub mod Endpoints
pub mod UnitTests
pub mod Shutdown
pub mod Deadline
pub mod Telemetry
pub mod Samples
pub mod RouteSamples
pub mod Signals
