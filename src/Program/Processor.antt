-- ===== src/Program/Processor.antt =====
-- program/src/processor/mod.rs: the checks that the processors share, and the dispatch.
pub mod Returns
pub mod Checks
pub mod InitializeStaging
pub mod Write
pub mod Publish
pub mod Verify
pub mod CloseStaging
pub mod Dispatch
