-- ===== src/Backend.antt =====
-- What lies outside the process: the connection pool, Absurd's stored procedures, the clock, and the
-- crates that the source calls. A backend answers each call as it likes and may change its state.
mod Calls
mod Monad
mod Ending
pub use Calls.*
unfoldable pub use Monad.*
pub use Ending.*
