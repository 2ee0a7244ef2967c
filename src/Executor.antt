-- ===== src/Executor.antt =====
-- src/executor.rs: running one claimed task and recording how it ended.
pub mod Payload
pub mod Finish
pub mod Execute
pub mod Watchdog
