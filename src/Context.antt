-- ===== src/Context.antt =====
-- src/context.rs: the context that a running task works with.
pub mod State
pub mod Step
pub mod Sleep
pub mod Event
pub mod Wait
pub mod Durable
pub mod Program
pub mod Lease
pub mod Attempt
