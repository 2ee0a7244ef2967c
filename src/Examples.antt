-- ===== src/Examples.antt =====
-- The programs under examples/, built from the client, the context and the worker.
pub mod HelloWorld
pub mod Order
