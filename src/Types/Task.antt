-- ===== src/Types/Task.antt =====
-- Tasks in src/types.rs: options to spawn, retry and register them, and what a worker claims.
pub mod Wire
pub mod Spawning
pub mod Retrying
pub mod Naming
use absurd_rust_sdk.Base.{String, Bool, true, false, Option, none, some, and_then, if◌then◌else◌}
use absurd_rust_sdk.Error.{Uuid, Result, ok, err, config}
use absurd_rust_sdk.Int.{ℤ, pos, ltb_ℤ}
use absurd_rust_sdk.Json.{Json, Fields, object, string, number, int, boolean, end, put, put_some}
use absurd_rust_sdk.Types.Queue.{int_json}
use absurd_rust_sdk.Types.Retry.{
  RetryStrategy, CancellationPolicy, retry_to_json, cancellation_to_json,
}

pub record SpawnOptions : Type 0 where
  pub queue : Option String
  pub max_attempts : Option ℤ
  pub retry_strategy : Option RetryStrategy
  pub headers : Option Fields
  pub cancellation : Option CancellationPolicy
  pub idempotency_key : Option String

abbrev pub default_spawn_options : SpawnOptions
default_spawn_options = record {
  queue = none;
  max_attempts = none;
  retry_strategy = none;
  headers = none;
  cancellation = none;
  idempotency_key = none;
}

abbrev same : Json → Json
same j = j

-- The keys are written in the source's order.
unfoldable pub spawn_to_sql_json : SpawnOptions → ℤ → Option CancellationPolicy → Json
spawn_to_sql_json o effective_max_attempts effective_cancellation = object (
    put_some "idempotency_key" o.idempotency_key string (
      put_some "cancellation" (and_then effective_cancellation cancellation_to_json) same (
        put_some "retry_strategy" o.retry_strategy retry_to_json (
          put_some "headers" o.headers object
            (put "max_attempts" (int_json effective_max_attempts) end)))))

pub record RetryTaskOptions : Type 0 where
  pub queue : Option String
  pub max_attempts : Option ℤ
  pub spawn_new : Bool

abbrev pub too_few : Option ℤ → Bool
too_few none = false
too_few (some n) = ltb_ℤ n (pos 1)

unfoldable pub retry_to_sql_json : RetryTaskOptions → Result Json
retry_to_sql_json o =
    if too_few o.max_attempts
    then err (config "max attempts must be at least 1")
    else ok (
        object (
          put_some "spawn_new" (if o.spawn_new then some true else none) boolean
            (put_some "max_attempts" o.max_attempts int_json end)))

pub record SpawnResult : Type 0 where
  pub task_id : Uuid
  pub run_id : Uuid
  pub attempt : ℤ
  pub created : Bool

pub record ClaimedTask : Type 0 where
  pub run_id : Uuid
  pub task_id : Uuid
  pub attempt : ℤ
  pub task_name : String
  pub params : Json
  pub retry_strategy : Option Json
  pub max_attempts : Option ℤ
  pub headers : Option Json
  pub wake_event : Option String
  pub event_payload : Option Json

pub record TaskOptions : Type 0 where
  pub name : String
  pub queue : Option String
  pub default_max_attempts : Option ℤ
  pub default_cancellation : Option CancellationPolicy

-- `TaskOptions::new`
abbrev pub new_task_options : String → TaskOptions
new_task_options name = record {
  name = name;
  queue = none;
  default_max_attempts = none;
  default_cancellation = none;
}

pub record CleanupResult : Type 0 where
  pub tasks_deleted : ℤ
  pub events_deleted : ℤ
