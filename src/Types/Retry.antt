-- ===== src/Types/Retry.antt =====
-- Retry strategies and cancellation policies of src/types.rs, with the JSON they become.
pub mod Cancelling
use absurd_rust_sdk.Base.{Option, none, some, if◌then◌else◌}
use absurd_rust_sdk.Int.{pos}
use absurd_rust_sdk.Json.{
  Json, F64, as_secs_f64, object, string, number, int, end, put, put_some, is_empty, json_f64,
}
use absurd_rust_sdk.Types.Duration.{Duration, duration_seconds_ceil}

pub data RetryStrategy : Type 0 where
  no_retry : RetryStrategy
  fixed : Duration → RetryStrategy
  exponential : Duration → F64 → Option Duration → RetryStrategy

-- `RetryStrategy::none`, `RetryStrategy::fixed` and `RetryStrategy::exponential`
abbrev pub none_of : RetryStrategy
none_of = no_retry

abbrev pub fixed_of : Duration → RetryStrategy
fixed_of base = fixed base

abbrev pub exponential_of : Duration → F64 → RetryStrategy
exponential_of base factor = exponential base factor none

unfoldable pub with_max : RetryStrategy → Duration → RetryStrategy
with_max (exponential base factor _) max = exponential base factor (some max)
with_max no_retry max = no_retry
with_max (fixed base) max = fixed base

abbrev pub seconds_json : Duration → Json
seconds_json d = json_f64 (as_secs_f64 d)

unfoldable pub retry_to_json : RetryStrategy → Json
retry_to_json no_retry = object (put "kind" (string "none") end)
retry_to_json (fixed base) =
    object (put "base_seconds" (seconds_json base) (put "kind" (string "fixed") end))
retry_to_json (exponential base factor max) = object (
    put_some "max_seconds" max seconds_json (
      put "factor" (json_f64 factor)
        (put "base_seconds" (seconds_json base) (put "kind" (string "exponential") end))))

pub record CancellationPolicy : Type 0 where
  pub max_duration : Option Duration
  pub max_delay : Option Duration

-- `CancellationPolicy::default`
abbrev pub default_cancellation_policy : CancellationPolicy
default_cancellation_policy = record { max_duration = none; max_delay = none }

abbrev pub ceil_json : Duration → Json
ceil_json d = number (int (pos (duration_seconds_ceil d)))

-- `(!obj.is_empty()).then_some(Value::Object(obj))`
unfoldable pub cancellation_to_json : CancellationPolicy → Option Json
cancellation_to_json c =
    let obj =
      put_some "max_delay" c.max_delay ceil_json
        (put_some "max_duration" c.max_duration ceil_json end) in
    if is_empty obj then none else some (object obj)
