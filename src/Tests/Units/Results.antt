-- ===== src/Tests/Units/Results.antt =====
-- The tests of src/task_result.rs, src/error.rs and src/context.rs.
use absurd_rust_sdk.Base.{◌≡◌, refl, ◌+◌, ◌*◌, ◌/◌, ◌%◌, String, true, false, none, some}
use absurd_rust_sdk.Error.{
  ok, suspended, cancelled, already_failed, message, is_control_flow, is_terminal_state_race,
}
use absurd_rust_sdk.Int.{pos}
use absurd_rust_sdk.Json.{Json, null, boolean, string, object, field, end}
use absurd_rust_sdk.Types.Duration.{from_secs, from_millis, nanos_per_sec}
use absurd_rust_sdk.Types.Queue.{int_json}
use absurd_rust_sdk.Backend.{Timestamp}
use absurd_rust_sdk.TaskResult.{
  TaskResultState, is_pending, is_completed, is_failed, is_sleeping, state_try_from, state_as_str,
  is_terminal_state, snapshot_to_value, from_sql_parts,
}
use absurd_rust_sdk.TaskResult.Backoff.{initial_task_result_backoff, next_task_result_backoff}
use absurd_rust_sdk.Context.Sleep.{postgres_timestamp_precision}

abbrev TaskResultStateParsesKnownSqlValues : Type 0
TaskResultStateParsesKnownSqlValues =
    (state_try_from "pending" ≡ ok TaskResultState.pending)
    × (state_try_from "completed" ≡ ok TaskResultState.completed)
    × (is_terminal_state TaskResultState.completed ≡ true)
    × (is_terminal_state TaskResultState.running ≡ false)
    × (state_as_str TaskResultState.failed ≡ "failed")

task_result_state_parses_known_sql_values : TaskResultStateParsesKnownSqlValues
unfolding state_try_from is_terminal_state state_as_str
task_result_state_parses_known_sql_values = (refl, refl, refl, refl, refl)

abbrev flag : String → Json
flag key = object (field key (boolean true) end)

abbrev TaskResultSnapshotUsesTaggedJsonShape : Type 0
TaskResultSnapshotUsesTaggedJsonShape =
    (snapshot_to_value (is_completed (flag "ok"))
      ≡ ok (object (field "state" (string "completed") (field "result" (flag "ok") end))))
    × (snapshot_to_value (is_failed null)
        ≡ ok (object (field "state" (string "failed") (field "failure" null end))))
    × (snapshot_to_value is_sleeping ≡ ok (object (field "state" (string "sleeping") end)))

task_result_snapshot_uses_tagged_json_shape : TaskResultSnapshotUsesTaggedJsonShape
unfolding snapshot_to_value
task_result_snapshot_uses_tagged_json_shape = (refl, refl, refl)

abbrev SqlPartsOnlyExposeTerminalPayloads : Type 0
SqlPartsOnlyExposeTerminalPayloads =
    (from_sql_parts "pending" (some (int_json (pos 1))) (some (int_json (pos 2))) ≡ ok is_pending)
    × (from_sql_parts "completed" (some (int_json (pos 42))) none
        ≡ ok (is_completed (int_json (pos 42))))
    × (from_sql_parts "failed" none (some (flag "error")) ≡ ok (is_failed (flag "error")))

sql_parts_only_expose_terminal_payloads : SqlPartsOnlyExposeTerminalPayloads
unfolding from_sql_parts state_try_from
sql_parts_only_expose_terminal_payloads = (refl, refl, refl)

abbrev TaskResultBackoffDoublesUntilCap : Type 0
TaskResultBackoffDoublesUntilCap =
    let second = next_task_result_backoff initial_task_result_backoff in
    let third = next_task_result_backoff second in
    (second ≡ from_millis 100)
    × (third ≡ from_millis 200)
    × (next_task_result_backoff (from_secs 1) ≡ from_secs 1)

task_result_backoff_doubles_until_cap : TaskResultBackoffDoublesUntilCap
unfolding next_task_result_backoff
task_result_backoff_doubles_until_cap = (refl, refl, refl)

abbrev ControlFlowSentinelsAreClassified : Type 0
ControlFlowSentinelsAreClassified =
    (is_control_flow suspended ≡ true)
    × (is_control_flow cancelled ≡ true)
    × (is_control_flow already_failed ≡ true)
    × (is_control_flow (message "boom") ≡ false)

control_flow_sentinels_are_classified : ControlFlowSentinelsAreClassified
unfolding is_control_flow
control_flow_sentinels_are_classified = (refl, refl, refl, refl)

abbrev OnlyTerminalRacesAreTerminalStateRaces : Type 0
OnlyTerminalRacesAreTerminalStateRaces =
    (is_terminal_state_race cancelled ≡ true)
    × (is_terminal_state_race already_failed ≡ true)
    × (is_terminal_state_race suspended ≡ false)
    × (is_terminal_state_race (message "boom") ≡ false)

only_terminal_races_are_terminal_state_races : OnlyTerminalRacesAreTerminalStateRaces
unfolding is_terminal_state_race
only_terminal_races_are_terminal_state_races = (refl, refl, refl, refl)

-- `DateTime::from_timestamp`
abbrev from_timestamp : Timestamp → Timestamp → Timestamp
from_timestamp secs nanos = secs * nanos_per_sec + nanos

abbrev PostgresTimestampPrecisionTruncatesSubMicrosecondNanos : Type 0
PostgresTimestampPrecisionTruncatesSubMicrosecondNanos =
    let timestamp = from_timestamp 1_777_000_000 123_456_789 in
    let normalized = postgres_timestamp_precision timestamp in
    (normalized / nanos_per_sec ≡ timestamp / nanos_per_sec)
    × (normalized % nanos_per_sec ≡ 123_456_000)

postgres_timestamp_precision_truncates_sub_microsecond_nanos :
    PostgresTimestampPrecisionTruncatesSubMicrosecondNanos
unfolding postgres_timestamp_precision
postgres_timestamp_precision_truncates_sub_microsecond_nanos = (refl, refl)

abbrev PostgresTimestampPrecisionPreservesMicrosecondValues : Type 0
PostgresTimestampPrecisionPreservesMicrosecondValues =
    let timestamp = from_timestamp 1_777_000_000 123_456_000 in
    postgres_timestamp_precision timestamp ≡ timestamp

postgres_timestamp_precision_preserves_microsecond_values :
    PostgresTimestampPrecisionPreservesMicrosecondValues
unfolding postgres_timestamp_precision
postgres_timestamp_precision_preserves_microsecond_values = refl
