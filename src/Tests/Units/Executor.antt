-- ===== src/Tests/Units/Executor.antt =====
-- The tests of src/executor.rs and of what src/worker.rs reports of a task.
use absurd_rust_sdk.Base.{ℕ, suc, ◌≡◌, refl, String, Bool, true, false, ◌&&◌, List, [], ◌∷◌, leb}
use absurd_rust_sdk.Error.{Uuid, Error, message}
use absurd_rust_sdk.Json.{Json, null, string}
use absurd_rust_sdk.Types.Duration.{from_secs}
use absurd_rust_sdk.Types.Worker.{WorkerErrorKind, claim, execution}
use absurd_rust_sdk.Client.Connect.{has_part}
use absurd_rust_sdk.Executor.Payload.{
  unknown_task_defer_delay, error_failure_payload, failure_payload,
}
use absurd_rust_sdk.Worker.{draining, failed, report_task_result, start}
use absurd_rust_sdk.Tests.Units.{index}

abbrev nil : Uuid
nil = record {
  bytes = 0 ∷ 0 ∷ 0 ∷ 0 ∷ 0 ∷ 0 ∷ 0 ∷ 0 ∷ 0 ∷ 0 ∷ 0 ∷ 0 ∷ 0 ∷ 0 ∷ 0 ∷ 0 ∷ [];
  text = "00000000-0000-0000-0000-000000000000";
}

abbrev UnknownDeferDelayIsBounded : Type 0
UnknownDeferDelayIsBounded =
    let delay = unknown_task_defer_delay nil in
    (leb (from_secs 15) delay ≡ true) × (leb delay (from_secs 30) ≡ true)

unknown_defer_delay_is_bounded : UnknownDeferDelayIsBounded
unfolding unknown_task_defer_delay
unknown_defer_delay_is_bounded = (refl, refl)

-- `value.as_str().is_some_and(|text| …)`
abbrev is_text : (String → Bool) → Json → Bool
is_text test (string text) = test text
is_text test _ = false

abbrev ErrorFailurePayloadIncludesDiagnostics : Type 0
ErrorFailurePayloadIncludesDiagnostics =
    let payload = error_failure_payload (message "boom") in
    (index payload "name" ≡ string "Error")
    × (index payload "message" ≡ string "boom")
    × (index payload "traceback" ≡ null)
    × (is_text (λ debug. has_part "Message" debug && has_part "boom" debug) (index payload "debug")
        ≡ true)

error_failure_payload_includes_diagnostics : ErrorFailurePayloadIncludesDiagnostics
unfolding error_failure_payload absurd_rust_sdk.Json.get has_part absurd_rust_sdk.Text.debug
error_failure_payload_includes_diagnostics = (refl, refl, refl, refl)

abbrev ManualFailurePayloadPreservesSqlShapeWithDebug : Type 0
ManualFailurePayloadPreservesSqlShapeWithDebug =
    let payload = failure_payload "TaskNotRegistered" "missing" "debug details" in
    (index payload "name" ≡ string "TaskNotRegistered")
    × (index payload "message" ≡ string "missing")
    × (index payload "debug" ≡ string "debug details")
    × (index payload "traceback" ≡ null)

manual_failure_payload_preserves_sql_shape_with_debug :
    ManualFailurePayloadPreservesSqlShapeWithDebug
unfolding failure_payload absurd_rust_sdk.Json.get
manual_failure_payload_preserves_sql_shape_with_debug = (refl, refl, refl, refl)

-- How many reports are of an execution.
abbrev executions : List (WorkerErrorKind × Error) → ℕ
executions [] = 0
executions ((claim, e) ∷ reports) = executions reports
executions ((execution, e) ∷ reports) = suc (executions reports)

-- The call goes on, and the handler has been called once.
abbrev ReportTaskResultInvokesHandlerForExecutionFailures : Type 0
ReportTaskResultInvokesHandlerForExecutionFailures =
    let s = report_task_result 1 1 (failed (message "execution failed")) draining start in
    (s.phase ≡ draining) × (executions s.reports ≡ 1)

report_task_result_invokes_handler_for_execution_failures :
    ReportTaskResultInvokesHandlerForExecutionFailures
unfolding report_task_result
report_task_result_invokes_handler_for_execution_failures = (refl, refl)
