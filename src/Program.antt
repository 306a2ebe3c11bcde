-- ===== src/Program.antt =====
-- The crate `program`: the registry of verifying keys.
pub mod Errors
pub mod Runtime
pub mod Processor
pub mod Registry
pub mod Upload
pub mod Session
pub mod Returns
