-- ===== src/Executor/Finish.antt =====
-- The calls of src/executor.rs that record how a run ended. A run that was cancelled or failed
-- meanwhile is not an error.
pub mod Calls
use absurd_rust_sdk.Base.{String, ◌<>◌, Bool, Option, none, some, if◌then◌else◌}
use absurd_rust_sdk.Error.{Uuid, Error, Result, ok, err, panic, is_terminal_state_race}
use absurd_rust_sdk.Json.{Json}
use absurd_rust_sdk.Text
use absurd_rust_sdk.Types.Task.{ClaimedTask}
use absurd_rust_sdk.Types.Worker.{UnknownTaskPolicy, defer, fail}
use absurd_rust_sdk.Backend.{
  Backend, World, Action, send, get_connection, call, ◌>>=◌, ◌>>◌, schedule_run_in,
  complete_run as complete_run_call, fail_run as fail_run_call,
}
use absurd_rust_sdk.Executor.Payload.{
  failure_payload, error_failure_payload, unknown_task_defer_delay,
}

-- `Err(err) if err.is_terminal_state_race() => Ok(())`
unfoldable pub ignore_race : Result (Unit {0}) → Result (Unit {0})
ignore_race (ok _) = ok tt
ignore_race (err e) = if is_terminal_state_race e then ok tt else err e
ignore_race (panic p) = panic p

abbrev pub forgiving : {S : Type 0} → Action S (Unit {0}) → Action S (Unit {0})
forgiving m s = let (r, s') = m s in (ignore_race r, s')

module _ {B : Backend} where
  unfoldable pub complete_run : String → Uuid → Json → Action (World B) (Unit {0})
  unfolding ignore_race
  complete_run queue_name run_id result =
      get_connection >> forgiving (send (complete_run_call queue_name run_id result))

  unfoldable pub fail_run_payload : String → Uuid → Json → Action (World B) (Unit {0})
  unfolding ignore_race
  fail_run_payload queue_name run_id payload =
      get_connection >> forgiving (send (fail_run_call queue_name run_id payload none))

  unfoldable pub fail_run_error : String → Uuid → Error → Action (World B) (Unit {0})
  unfolding fail_run_payload error_failure_payload
  fail_run_error queue_name run_id e = fail_run_payload queue_name run_id (error_failure_payload e)

  unfoldable pub handle_unknown_task :
      String → ClaimedTask → UnknownTaskPolicy → Action (World B) (Unit {0})
  unfolding fail_run_payload failure_payload unknown_task_defer_delay
  handle_unknown_task worker_queue task defer =
      call (schedule_run_in worker_queue task.run_id (unknown_task_defer_delay task.run_id))
  handle_unknown_task worker_queue task fail = fail_run_payload worker_queue task.run_id (
      failure_payload "TaskNotRegistered"
        ("task " <> Text.debug task.task_name <> " is not registered")
        ("TaskNotRegistered(" <> Text.debug task.task_name <> ")"))
