-- ===== src/Command.antt =====
-- crates/server/src/main.rs: the command line.
pub mod Run
pub mod Phases
pub mod Exit
pub mod Doctor
mod Samples
