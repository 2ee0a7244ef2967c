-- ===== src/Client.antt =====
-- src/client.rs: the client, its registry of tasks, and what it asks of the database.
pub mod State
pub mod Connect
pub mod Erase
pub mod Register
pub mod Spawn
pub mod Queues
pub mod Tasks
pub mod Batch
pub mod Typed
