-- ===== src/Types.antt =====
-- src/types.rs: durations, options, and the JSON that the stored procedures are given.
pub mod Duration
pub mod Queue
pub mod Retry
pub mod Task
pub mod Worker
