-- ===== src/Error.antt =====
-- src/error.rs: the error type, its classification, and the reading of Absurd's SQLSTATE codes.
-- An error of another crate is what this crate reads of it: its texts, and its code if it has one.
pub mod Classes
use absurd_rust_sdk.Base.{
  ℕ, String, ◌<>◌, ◌≡◌, Bool, true, false, ◌||◌, Option, none, some, List, str_eq, if◌then◌else◌,
}
use absurd_rust_sdk.Text

-- `uuid::Uuid`: its bytes, and the text that `{}` and `{:?}` print.
pub record Uuid : Type 0 where
  pub bytes : List ℕ
  pub text : String

-- `tokio_postgres::Error`; `sqlstate` is `as_db_error().map(|e| e.code().code())`.
pub record DbError : Type 0 where
  pub sqlstate : Option String
  pub shown : String
  pub debugged : String

-- `deadpool_postgres::PoolError`, `serde_json::Error`.
pub record ForeignError : Type 0 where
  pub shown : String
  pub debugged : String

-- What a panic carries, as `panic_message` tells it apart.
pub data PanicPayload : Type 0 where
  static_str : String → PanicPayload
  owned_string : String → PanicPayload
  opaque : PanicPayload

-- `tokio::task::JoinError`: a panic, or a cancelled task.
pub record JoinError : Type 0 where
  pub payload : Option PanicPayload
  pub shown : String
  pub debugged : String

pub data Error : Type 0 where
  database : DbError → Error
  pool : ForeignError → Error
  serialization : ForeignError → Error
  config : String → Error
  task_not_registered : String → Error
  task_already_registered : String → Error
  task_not_found : Uuid → Error
  task_result_timeout : Uuid → Error
  suspended : Error
  cancelled : Error
  already_failed : Error
  event_timeout : String → Error
  join : JoinError → Error
  invalid_headers : Error
  message : String → Error

-- What a call ends in: a value, an error, or a panic, which unwinds to the task that was spawned.
pub data Result {ℓ} (A : Type ℓ) : Type ℓ where
  ok : A → Result A
  err : Error → Result A
  panic : PanicPayload → Result A

-- `?` on a pure result.
infixl 5 ◌>>=◌ ◌>>◌
abbrev pub ◌>>=◌ {ℓ κ} : {A : Type ℓ} {B : Type κ} → Result A → (A → Result B) → Result B
ok a >>= f = f a
err e >>= f = err e
panic p >>= f = panic p

abbrev pub ◌>>◌ {ℓ} : {B : Type ℓ} → Result (Unit {0}) → Result B → Result B
m >> k = m >>= λ _. k

-- The `Display` that `thiserror` derives from the `#[error]` lines.
unfoldable pub to_string : Error → String
to_string (database e) = "database error: " <> e.shown
to_string (pool e) = "database pool error: " <> e.shown
to_string (serialization e) = "serialization error: " <> e.shown
to_string (config m) = "configuration error: " <> m
to_string (task_not_registered t) = "task " <> Text.debug t <> " is not registered"
to_string (task_already_registered t) = "task " <> Text.debug t <> " is already registered"
to_string (task_not_found id) = "task " <> id.text <> " not found"
to_string (task_result_timeout id) = "timed out waiting for task " <> id.text
to_string suspended = "task suspended"
to_string cancelled = "task cancelled"
to_string already_failed = "task run is already failed"
to_string (event_timeout e) = "timed out waiting for event " <> Text.debug e
to_string (join e) = "worker task join error: " <> e.shown
to_string invalid_headers = "invalid task headers: expected a JSON object"
to_string (message m) = m

-- The derived `Debug`.
unfoldable pub to_debug : Error → String
to_debug (database e) = "Database(" <> e.debugged <> ")"
to_debug (pool e) = "Pool(" <> e.debugged <> ")"
to_debug (serialization e) = "Serialization(" <> e.debugged <> ")"
to_debug (config m) = "Config(" <> Text.debug m <> ")"
to_debug (task_not_registered t) = "TaskNotRegistered(" <> Text.debug t <> ")"
to_debug (task_already_registered t) = "TaskAlreadyRegistered(" <> Text.debug t <> ")"
to_debug (task_not_found id) = "TaskNotFound { task_id: " <> id.text <> " }"
to_debug (task_result_timeout id) = "TaskResultTimeout { task_id: " <> id.text <> " }"
to_debug suspended = "Suspended"
to_debug cancelled = "Cancelled"
to_debug already_failed = "AlreadyFailed"
to_debug (event_timeout e) = "EventTimeout { event: " <> Text.debug e <> " }"
to_debug (join e) = "Join(" <> e.debugged <> ")"
to_debug invalid_headers = "InvalidHeaders"
to_debug (message m) = "Message(" <> Text.debug m <> ")"

unfoldable pub is_suspended : Error → Bool
is_suspended suspended = true
is_suspended _ = false

unfoldable pub is_cancelled : Error → Bool
is_cancelled cancelled = true
is_cancelled _ = false

unfoldable pub is_control_flow : Error → Bool
is_control_flow suspended = true
is_control_flow cancelled = true
is_control_flow already_failed = true
is_control_flow _ = false

unfoldable pub is_terminal_state_race : Error → Bool
is_terminal_state_race cancelled = true
is_terminal_state_race already_failed = true
is_terminal_state_race _ = false

-- The `match` on the code.
map_code : Option String → DbError → Error
map_code none e = database e
map_code (some c) e =
    if str_eq c "AB001" then cancelled else if str_eq c "AB002" then already_failed else database e

unfoldable pub map_database_error : DbError → Error
unfolding map_code
map_database_error e = map_code e.sqlstate e

pub ok_injective {ℓ} : {A : Type ℓ} {a b : A} → ok a ≡ ok b → a ≡ b
ok_injective e = cc
