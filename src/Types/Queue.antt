-- ===== src/Types/Queue.antt =====
-- Queues in src/types.rs: their names, their storage and detach modes, their policies.
pub mod Names
pub mod Policy
pub mod PolicyOptions
pub mod CreateOptions
pub mod Serialized
use absurd_rust_sdk.Base.{
  ℕ, String, ◌<>◌, len, Bool, true, false, ◌&&◌, Option, none, some, ltb, is_none, if◌then◌else◌,
}
use absurd_rust_sdk.Error.{Error, Result, ok, err, config}
use absurd_rust_sdk.Int.{ℤ}
use absurd_rust_sdk.Json.{Json, Fields, object, string, number, int, put_some, end}
use absurd_rust_sdk.Text
use absurd_rust_sdk.Text.{is_empty, trim, to_ascii_lowercase, codes, codes_eq}

-- `len` counts the bytes of the UTF-8 text, as `str::len` does.
unfoldable pub validate_queue_name : String → Result (Unit {0})
validate_queue_name queue_name =
    if is_empty queue_name
    then err (config "queue name must be provided")
    else if ltb 57 (len queue_name)
    then err (config ("queue name " <> Text.debug queue_name <> " is too long (max 57 bytes)"))
    else ok tt

pub data QueueStorageMode : Type 0 where
  unpartitioned partitioned : QueueStorageMode

unfoldable pub storage_mode_as_str : QueueStorageMode → String
storage_mode_as_str unpartitioned = "unpartitioned"
storage_mode_as_str partitioned = "partitioned"

-- `storage_mode.parse()`
unfoldable pub parse_storage_mode : String → Result QueueStorageMode
parse_storage_mode value =
    let lowered = to_ascii_lowercase (trim value) in
    if codes_eq lowered (codes "unpartitioned")
    then ok unpartitioned
    else if codes_eq lowered (codes "partitioned")
    then ok partitioned
    else err (config ("invalid queue storage mode: " <> value))

-- `*value == QueueStorageMode::Unpartitioned`
unfoldable pub is_default_queue_storage_mode : QueueStorageMode → Bool
is_default_queue_storage_mode unpartitioned = true
is_default_queue_storage_mode partitioned = false

-- `QueueDetachMode`; its `None` is `keep` here.
pub data QueueDetachMode : Type 0 where
  keep empty : QueueDetachMode

unfoldable pub detach_mode_as_str : QueueDetachMode → String
detach_mode_as_str keep = "none"
detach_mode_as_str empty = "empty"

unfoldable pub parse_detach_mode : String → Result QueueDetachMode
parse_detach_mode value =
    let lowered = to_ascii_lowercase (trim value) in
    if codes_eq lowered (codes "none")
    then ok keep
    else if codes_eq lowered (codes "empty")
    then ok empty
    else err (config ("invalid queue detach mode: " <> value))

pub record QueuePolicyOptions : Type 0 where
  pub partition_lookahead : Option String
  pub partition_lookback : Option String
  pub cleanup_ttl : Option String
  pub cleanup_limit : Option ℤ
  pub detach_mode : Option QueueDetachMode
  pub detach_min_age : Option String

-- `QueuePolicyOptions::default`
abbrev pub default_queue_policy_options : QueuePolicyOptions
default_queue_policy_options = record {
  partition_lookahead = none;
  partition_lookback = none;
  cleanup_ttl = none;
  cleanup_limit = none;
  detach_mode = none;
  detach_min_age = none;
}

unfoldable pub policy_is_empty : QueuePolicyOptions → Bool
policy_is_empty o =
    is_none o.partition_lookahead
    && is_none o.partition_lookback
    && is_none o.cleanup_ttl
    && is_none o.cleanup_limit
    && is_none o.detach_mode
    && is_none o.detach_min_age

abbrev pub detach_mode_json : QueueDetachMode → Json
detach_mode_json m = string (detach_mode_as_str m)

abbrev pub int_json : ℤ → Json
int_json n = number (int n)

-- The keys are written in the source's order.
policy_fields : QueuePolicyOptions → Fields
policy_fields o = put_some "detach_min_age" o.detach_min_age string (
    put_some "detach_mode" o.detach_mode detach_mode_json (
      put_some "cleanup_limit" o.cleanup_limit int_json (
        put_some "cleanup_ttl" o.cleanup_ttl string (
          put_some "partition_lookback" o.partition_lookback string
            (put_some "partition_lookahead" o.partition_lookahead string end)))))

unfoldable pub policy_to_sql_json : QueuePolicyOptions → Json
unfolding policy_fields
policy_to_sql_json o = object (policy_fields o)

pub record CreateQueueOptions : Type 0 where
  pub storage_mode : QueueStorageMode
  pub partition_lookahead : Option String
  pub partition_lookback : Option String
  pub cleanup_ttl : Option String
  pub cleanup_limit : Option ℤ
  pub detach_mode : Option QueueDetachMode
  pub detach_min_age : Option String

-- `CreateQueueOptions::default`
abbrev pub default_create_queue_options : CreateQueueOptions
default_create_queue_options = record {
  storage_mode = unpartitioned;
  partition_lookahead = none;
  partition_lookback = none;
  cleanup_ttl = none;
  cleanup_limit = none;
  detach_mode = none;
  detach_min_age = none;
}

unfoldable pub policy_options : CreateQueueOptions → QueuePolicyOptions
policy_options o = record {
  partition_lookahead = o.partition_lookahead;
  partition_lookback = o.partition_lookback;
  cleanup_ttl = o.cleanup_ttl;
  cleanup_limit = o.cleanup_limit;
  detach_mode = o.detach_mode;
  detach_min_age = o.detach_min_age;
}

pub record QueuePolicy : Type 0 where
  pub queue_name : String
  pub storage_mode : QueueStorageMode
  pub partition_lookahead : String
  pub partition_lookback : String
  pub cleanup_ttl : String
  pub cleanup_limit : ℤ
  pub detach_mode : QueueDetachMode
  pub detach_min_age : String
