-- ===== src/Tests/Values.antt =====
-- Witnesses for values: durations, names, options, snapshots and their wire forms.
use absurd_rust_sdk.Base.{
  ◌+◌, ◌*◌, ◌≤◌, ◌<◌, max, len, ◌≡◌, ◌↔◌, ◌⊎◌, refl, String, Bool, true, false, none, some,
  and_then, contains,
}
use absurd_rust_sdk.Error.{DbError, ok, database, cancelled, already_failed, map_database_error}
use absurd_rust_sdk.Error.Classes.{map_database_error_else}
use absurd_rust_sdk.Int.{pos}
use absurd_rust_sdk.Json.{null, string, object, map_option}
use absurd_rust_sdk.Types.Duration.{
  i32_max, nanos_per_sec, from_secs, duration_seconds_ceil, duration_seconds_ceil_least,
}
use absurd_rust_sdk.Types.Queue.{
  QueuePolicyOptions, keep, int_json, validate_queue_name, policy_to_sql_json,
}
use absurd_rust_sdk.Types.Queue.Names.{validate_queue_name_iff}
use absurd_rust_sdk.Types.Queue.Policy.{read_policy, read_policy-policy_to_sql_json}
use absurd_rust_sdk.Types.Retry.{retry_to_json, cancellation_to_json}
use absurd_rust_sdk.Types.Task.{SpawnOptions, default_spawn_options, spawn_to_sql_json}
use absurd_rust_sdk.Types.Task.Wire.{at, spawn_keys, at-spawn_to_sql_json}
use absurd_rust_sdk.Types.Worker.{
  WorkerOptions, NormalizedWorkerOptions, default_worker_options, normalized, IsNormal,
  normalized-IsNormal,
}
use absurd_rust_sdk.Backend.{IsFaithful}
use absurd_rust_sdk.TaskResult.{
  Snapshot, completed, state_as_str, state_of, result_of, failure_of, from_sql_parts,
  snapshot_codec,
}
use absurd_rust_sdk.TaskResult.Forms.{payload_in, from_sql_parts_lem, snapshot_codec-IsFaithful}
use absurd_rust_sdk.Tests.Fixtures.{calm}

duration_seconds_ceil_least_example :
    (duration_seconds_ceil 1_500_000_000 ≤ i32_max)
    × (duration_seconds_ceil 1_500_000_000 * nanos_per_sec < 1_500_000_000 + nanos_per_sec)
    × ((1_500_000_000 ≤ duration_seconds_ceil 1_500_000_000 * nanos_per_sec)
        ⊎ (duration_seconds_ceil 1_500_000_000 ≡ i32_max))
duration_seconds_ceil_least_example = duration_seconds_ceil_least 1_500_000_000

abbrev mail : String
mail = "mail"

validate_queue_name_iff_example :
    (validate_queue_name mail ≡ ok tt) ↔ (¬ (mail ≡ "") × (len mail ≤ 57))
validate_queue_name_iff_example = validate_queue_name_iff mail

abbrev a_policy : QueuePolicyOptions
a_policy = record {
  partition_lookahead = some "7 days";
  partition_lookback = none;
  cleanup_ttl = some "30 days";
  cleanup_limit = some (pos 100);
  detach_mode = some keep;
  detach_min_age = none;
}

read_policy-policy_to_sql_json_example : read_policy (policy_to_sql_json a_policy) ≡ a_policy
read_policy-policy_to_sql_json_example = read_policy-policy_to_sql_json a_policy

abbrev keyed : SpawnOptions
keyed = record default_spawn_options { idempotency_key = some "k1" }

at-spawn_to_sql_json_example :
    let j = spawn_to_sql_json keyed (pos 3) none in
    (at "max_attempts" j ≡ some (int_json (pos 3)))
    × (at "headers" j ≡ map_option object keyed.headers)
    × (at "retry_strategy" j ≡ map_option retry_to_json keyed.retry_strategy)
    × (at "cancellation" j ≡ and_then none cancellation_to_json)
    × (at "idempotency_key" j ≡ map_option string keyed.idempotency_key)
    × ((k : String) → contains k spawn_keys ≡ false → at k j ≡ none)
at-spawn_to_sql_json_example = at-spawn_to_sql_json keyed (pos 3) none

abbrev three_at_once : WorkerOptions Bool
three_at_once = record default_worker_options { concurrency = 3 }

abbrev in_use : NormalizedWorkerOptions Bool
in_use = record {
  worker_id = "host:1";
  claim_timeout = from_secs 120;
  claim_timeout_seconds = 120;
  concurrency = 3;
  batch_size = 3;
  poll_interval = 250_000_000;
  unknown_task_policy = three_at_once.unknown_task_policy;
  on_error = true;
  fatal_on_lease_timeout = true;
}

normalized-IsNormal_example :
    IsNormal in_use
    × (in_use.claim_timeout ≡ three_at_once.claim_timeout)
    × (in_use.concurrency ≡ max three_at_once.concurrency 1)
unfolding normalized duration_seconds_ceil
normalized-IsNormal_example = normalized-IsNormal "host:1" true three_at_once in_use refl

abbrev no_lease : WorkerOptions Bool
no_lease = record default_worker_options { claim_timeout = 0 }

snapshot_codec-IsFaithful_example : IsFaithful (snapshot_codec calm)
snapshot_codec-IsFaithful_example = snapshot_codec-IsFaithful calm

from_sql_parts_lem_example :
    (s : Snapshot) × (from_sql_parts (state_as_str completed) none (some null) ≡ ok s)
    × (state_of s ≡ completed)
    × (result_of s ≡ payload_in "completed" completed none)
    × (failure_of s ≡ payload_in "failed" completed (some null))
from_sql_parts_lem_example = from_sql_parts_lem completed none (some null)

abbrev lost_race : DbError
lost_race = record { sqlstate = some "AB001"; shown = "db error"; debugged = "Error" }

map_database_error_else_example :
    ((map_database_error lost_race ≡ cancelled) × (lost_race.sqlstate ≡ some "AB001"))
    ⊎ ((map_database_error lost_race ≡ already_failed) × (lost_race.sqlstate ≡ some "AB002"))
    ⊎ ((map_database_error lost_race ≡ database lost_race)
        × ¬ (lost_race.sqlstate ≡ some "AB001")
        × ¬ (lost_race.sqlstate ≡ some "AB002"))
map_database_error_else_example = map_database_error_else lost_race
