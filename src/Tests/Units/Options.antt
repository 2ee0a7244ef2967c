-- ===== src/Tests/Units/Options.antt =====
-- The tests of src/types.rs and src/task.rs about options.
use absurd_rust_sdk.Base.{ℕ, suc, ◌≡◌, refl, true, false, none, some, is_none}
use absurd_rust_sdk.Error.{ok, err, config, message, ◌>>=◌}
use absurd_rust_sdk.Int.{pos}
use absurd_rust_sdk.Json.{
  Json, F64, as_secs_f64, float, number, string, boolean, object, field, end,
}
use absurd_rust_sdk.Types.Duration.{from_secs}
use absurd_rust_sdk.Types.Retry.{CancellationPolicy, fixed_of}
use absurd_rust_sdk.Types.Retry.Cancelling
use absurd_rust_sdk.Types.Task.{SpawnOptions, spawn_to_sql_json, retry_to_sql_json}
use absurd_rust_sdk.Types.Task.Wire.{at}
use absurd_rust_sdk.Types.Task.Spawning as Spawning
use absurd_rust_sdk.Types.Task.Retrying as Retrying
use absurd_rust_sdk.Types.Queue.{
  QueuePolicyOptions, CreateQueueOptions, partitioned, empty, int_json, detach_mode_json,
  policy_to_sql_json, policy_options,
}
use absurd_rust_sdk.Types.Queue.PolicyOptions as PolicyBuilder
use absurd_rust_sdk.Types.Queue.CreateOptions as CreateBuilder
use absurd_rust_sdk.Types.Queue.Serialized.{storage_mode_json, create_options_to_value}
use absurd_rust_sdk.Types.Worker.{
  WorkerErrorKind, WorkerError, claim, execution, default_worker_options, normalized,
}
use absurd_rust_sdk.Types.Worker.Options as WorkerBuilder
use absurd_rust_sdk.Task.{Task}
use absurd_rust_sdk.Task as TaskBuilder
use absurd_rust_sdk.Tests.Units.{index}

abbrev wire_options : SpawnOptions
wire_options =
    Spawning.idempotency_key
      (Spawning.cancellation (Spawning.retry_strategy Spawning.new (fixed_of (from_secs 30)))
        (Cancelling.max_delay Cancelling.new (from_secs 60)))
      "idem"

-- The 30.0 of the test is the `as_secs_f64` of 30 seconds.
abbrev SpawnOptionsUseSqlWireKeys : Type 0
SpawnOptionsUseSqlWireKeys =
    let value = spawn_to_sql_json wire_options (pos 3) wire_options.cancellation in
    (index value "max_attempts" ≡ int_json (pos 3))
    × (index (index value "retry_strategy") "kind" ≡ string "fixed")
    × (index (index value "retry_strategy") "base_seconds"
        ≡ number (float (as_secs_f64 (from_secs 30))))
    × (index (index value "cancellation") "max_delay" ≡ int_json (pos 60))
    × (index value "idempotency_key" ≡ string "idem")

spawn_options_use_sql_wire_keys : SpawnOptionsUseSqlWireKeys
unfolding spawn_to_sql_json absurd_rust_sdk.Json.get absurd_rust_sdk.Json.put_some
    absurd_rust_sdk.Json.put absurd_rust_sdk.Types.Retry.cancellation_to_json
    absurd_rust_sdk.Types.Retry.retry_to_json absurd_rust_sdk.Json.json_f64
    absurd_rust_sdk.Types.Duration.duration_seconds_ceil
spawn_options_use_sql_wire_keys = (refl, refl, refl, refl, refl)

abbrev RetryTaskOptionsUseSqlWireKeys : Type 0
RetryTaskOptionsUseSqlWireKeys =
    (value : Json) × (retry_to_sql_json (
        Retrying.spawn_new_task
          (Retrying.max_attempts (Retrying.queue Retrying.new "other") (pos 3)))
      ≡ ok value)
    × (index value "max_attempts" ≡ int_json (pos 3))
    × (index value "spawn_new" ≡ boolean true)
    × (at "queue" value ≡ none)

retry_task_options_use_sql_wire_keys : RetryTaskOptionsUseSqlWireKeys
unfolding retry_to_sql_json absurd_rust_sdk.Json.get absurd_rust_sdk.Json.put_some
    absurd_rust_sdk.Json.put
retry_task_options_use_sql_wire_keys = (_, refl, refl, refl, refl)

abbrev RetryTaskOptionsValidateMaxAttempts : Type 0
RetryTaskOptionsValidateMaxAttempts =
    retry_to_sql_json (Retrying.max_attempts Retrying.new (pos 0))
    ≡ err (config "max attempts must be at least 1")

retry_task_options_validate_max_attempts : RetryTaskOptionsValidateMaxAttempts
unfolding retry_to_sql_json
retry_task_options_validate_max_attempts = refl

-- The half of the test that writes the modes.
abbrev QueueModesSerializeToWireStrings : Type 0
QueueModesSerializeToWireStrings =
    (storage_mode_json partitioned ≡ string "partitioned")
    × (detach_mode_json empty ≡ string "empty")

queue_modes_serialize_to_wire_strings : QueueModesSerializeToWireStrings
unfolding absurd_rust_sdk.Types.Queue.storage_mode_as_str
    absurd_rust_sdk.Types.Queue.detach_mode_as_str
queue_modes_serialize_to_wire_strings = (refl, refl)

abbrev wire_policy : QueuePolicyOptions
wire_policy =
    PolicyBuilder.detach_min_age
      (PolicyBuilder.detach_mode
        (PolicyBuilder.cleanup_limit
          (PolicyBuilder.cleanup_ttl
            (PolicyBuilder.partition_lookback
              (PolicyBuilder.partition_lookahead PolicyBuilder.new "35 days") "2 days")
            "12345 seconds")
          (pos 77))
        empty)
      "45 days"

abbrev QueuePolicyOptionsUseSqlWireKeys : Type 0
QueuePolicyOptionsUseSqlWireKeys =
    policy_to_sql_json wire_policy
    ≡ object (
        field "partition_lookahead" (string "35 days") (
          field "partition_lookback" (string "2 days") (
            field "cleanup_ttl" (string "12345 seconds") (
              field "cleanup_limit" (int_json (pos 77)) (
                field "detach_mode" (string "empty")
                  (field "detach_min_age" (string "45 days") end))))))

queue_policy_options_use_sql_wire_keys : QueuePolicyOptionsUseSqlWireKeys
unfolding policy_to_sql_json absurd_rust_sdk.Json.put_some absurd_rust_sdk.Json.put
    absurd_rust_sdk.Types.Queue.detach_mode_as_str
queue_policy_options_use_sql_wire_keys = refl

abbrev upstream_options : CreateQueueOptions
upstream_options =
    CreateBuilder.detach_mode
      (CreateBuilder.cleanup_ttl (CreateBuilder.storage_mode CreateBuilder.new partitioned)
        "12345 seconds")
      empty

abbrev CreateQueueOptionsSerializeWithUpstreamKeys : Type 0
CreateQueueOptionsSerializeWithUpstreamKeys =
    (create_options_to_value upstream_options
      ≡ object (
          field "storage_mode" (string "partitioned") (
            field "cleanup_ttl" (string "12345 seconds")
              (field "detach_mode" (string "empty") end))))
    × (policy_to_sql_json (policy_options upstream_options)
        ≡ object (
            field "cleanup_ttl" (string "12345 seconds")
              (field "detach_mode" (string "empty") end)))

create_queue_options_serialize_with_upstream_keys : CreateQueueOptionsSerializeWithUpstreamKeys
unfolding create_options_to_value absurd_rust_sdk.Json.put_some absurd_rust_sdk.Json.put
    absurd_rust_sdk.Types.Queue.is_default_queue_storage_mode
    absurd_rust_sdk.Types.Queue.storage_mode_as_str absurd_rust_sdk.Types.Queue.detach_mode_as_str
    policy_to_sql_json policy_options
create_queue_options_serialize_with_upstream_keys = (refl, refl)

-- An error handler of the tests counts the errors that it is for.
abbrev CountingHandler : Type 0
CountingHandler = WorkerError → ℕ → ℕ

abbrev counts_claims : WorkerErrorKind → ℕ → ℕ
counts_claims claim seen = suc seen
counts_claims execution seen = seen

abbrev WorkerOptionsDefaultToFatalLeaseTimeout : Type 0
WorkerOptionsDefaultToFatalLeaseTimeout =
    let options = default_worker_options {H = CountingHandler} in
    (options.fatal_on_lease_timeout ≡ true) × (is_none options.on_error ≡ true)

worker_options_default_to_fatal_lease_timeout : WorkerOptionsDefaultToFatalLeaseTimeout
worker_options_default_to_fatal_lease_timeout = (refl, refl)

-- The identity and the handler that stand in for missing ones.
abbrev stand_in : CountingHandler
stand_in worker_error seen = seen

abbrev WorkerOptionsCanDisableFatalLeaseTimeout : Type 0
WorkerOptionsCanDisableFatalLeaseTimeout =
    (normalized "host:1" stand_in (WorkerBuilder.fatal_on_lease_timeout WorkerBuilder.new false)
      >>= λ n. ok n.fatal_on_lease_timeout)
    ≡ ok false

worker_options_can_disable_fatal_lease_timeout : WorkerOptionsCanDisableFatalLeaseTimeout
unfolding normalized
worker_options_can_disable_fatal_lease_timeout = refl

abbrev WorkerOptionsNormalizePreservesCustomErrorHandler : Type 0
WorkerOptionsNormalizePreservesCustomErrorHandler =
    (normalized "host:1" stand_in (
        WorkerBuilder.on_error WorkerBuilder.new
          (λ worker_error seen. counts_claims worker_error.kind seen))
      >>= λ n. ok (n.on_error (record { kind = claim; error = message "claim failed" }) 0))
    ≡ ok 1

worker_options_normalize_preserves_custom_error_handler :
    WorkerOptionsNormalizePreservesCustomErrorHandler
unfolding normalized
worker_options_normalize_preserves_custom_error_handler = refl

abbrev short_delay : CancellationPolicy
short_delay = Cancelling.max_delay Cancelling.new (from_secs 30)

abbrev TaskBuilderSetsDefaultCancellation : Type 0
TaskBuilderSetsDefaultCancellation =
    let task : Task (Unit {0}) (Unit {0}) =
      TaskBuilder.default_cancellation (TaskBuilder.new "send-email") short_delay in
    task.options.default_cancellation ≡ some short_delay

task_builder_sets_default_cancellation : TaskBuilderSetsDefaultCancellation
task_builder_sets_default_cancellation = refl
