-- ===== src/Executor/Payload.antt =====
-- What src/executor.rs records of a failure, and how long it puts off an unknown task.
use absurd_rust_sdk.Base.{ℕ, ◌+◌, ◌*◌, ◌%◌, ◌^◌, ◌≤◌, ◌≡◌, bit_xor, String, List, [], ◌∷◌, arith}
use absurd_rust_sdk.Error.{
  Uuid, Error, PanicPayload, static_str, owned_string, opaque, database, pool, serialization,
  config, task_not_registered, task_already_registered, task_not_found, task_result_timeout,
  suspended, cancelled, already_failed, event_timeout, join, invalid_headers, message, to_string,
  to_debug,
}
use absurd_rust_sdk.Json.{Json, null, string, object, field, end}
use absurd_rust_sdk.Types.Duration.{Duration, from_secs, nanos_per_sec}

unfoldable pub error_name : Error → String
error_name (database _) = "Database"
error_name (pool _) = "Pool"
error_name (serialization _) = "Serialization"
error_name (config _) = "Config"
error_name (task_not_registered _) = "TaskNotRegistered"
error_name (task_already_registered _) = "TaskAlreadyRegistered"
error_name (task_not_found _) = "TaskNotFound"
error_name (task_result_timeout _) = "TaskResultTimeout"
error_name suspended = "Suspended"
error_name cancelled = "Cancelled"
error_name already_failed = "AlreadyFailed"
error_name (event_timeout _) = "EventTimeout"
error_name (join _) = "Join"
error_name invalid_headers = "InvalidHeaders"
error_name (message _) = "Error"

unfoldable pub failure_payload : String → String → String → Json
failure_payload name msg debug = object (
    field "name" (string name)
      (field "message" (string msg) (field "debug" (string debug) (field "traceback" null end))))

unfoldable pub error_failure_payload : Error → Json
unfolding error_name failure_payload to_string to_debug
error_failure_payload e = failure_payload (error_name e) (to_string e) (to_debug e)

unfoldable pub panic_message : PanicPayload → String
panic_message (static_str m) = m
panic_message (owned_string m) = m
panic_message opaque = "task panicked"

-- One round of FNV-1a over `u32`: `hash ^= byte; hash = hash.wrapping_mul(0x0100_0193)`.
unfoldable pub fnv_round : ℕ → ℕ → ℕ
fnv_round hash byte = bit_xor hash byte * 0x01000193 % 2 ^ 32

unfoldable pub fnv_hash : ℕ → List ℕ → ℕ
fnv_hash hash [] = hash
fnv_hash hash (byte ∷ bytes) = fnv_hash (fnv_round hash byte) bytes

unfoldable pub unknown_task_defer_delay : Uuid → Duration
unfolding fnv_hash fnv_round
unknown_task_defer_delay run_id = from_secs (15 + fnv_hash 0x811c9dc5 run_id.bytes % 16)

-- An unknown task is put off by a whole number of seconds, from 15 to 30.
pub unknown_task_defer_delay_bounds :
    (run_id : Uuid)
    → (from_secs 15 ≤ unknown_task_defer_delay run_id)
      × (unknown_task_defer_delay run_id ≤ from_secs 30)
      × (unknown_task_defer_delay run_id % nanos_per_sec ≡ 0)
unfolding unknown_task_defer_delay
unknown_task_defer_delay_bounds run_id = let h = fnv_hash 0x811c9dc5 run_id.bytes in omega arith
