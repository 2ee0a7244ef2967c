-- ===== src/Executor/Execute.antt =====
-- `execute_claimed` and `execute_claimed_catching` in src/executor.rs. The lease watchdog runs
-- beside them and is modelled on its own.
pub mod Outcome
pub mod Typed
pub mod Again
pub mod Spawned
pub mod Renewals
use absurd_rust_sdk.Base.{
  String, ◌<>◌, Bool, true, false, not, Option, none, some, if◌then◌else◌, str_eq,
}
use absurd_rust_sdk.Error.{
  Uuid, Error, PanicPayload, Result, ok, err, panic, config, message, is_control_flow,
}
use absurd_rust_sdk.Json.{Json, null}
use absurd_rust_sdk.Text
use absurd_rust_sdk.Types.Duration.{Duration}
use absurd_rust_sdk.Types.Task.{ClaimedTask}
use absurd_rust_sdk.Types.Worker.{
  UnknownTaskPolicy, WorkerErrorKind, WorkerError, WorkerErrorHandler, execution,
}
use absurd_rust_sdk.Backend.{
  Backend, World, Action, note, user, reported, pure, continue, lift, ◌>>=◌, ◌>>◌,
}
use absurd_rust_sdk.Context.State.{TaskContext, Run, new_context}
use absurd_rust_sdk.Hooks.{TaskExecution, Hooks}
use absurd_rust_sdk.Client.State.{RegisteredTask, Registry, get_registration}
use absurd_rust_sdk.Executor.Payload.{failure_payload, panic_message}
use absurd_rust_sdk.Executor.Finish.{
  complete_run, fail_run_payload, fail_run_error, handle_unknown_task,
}

module _ (B : Backend) where
  pub record TaskExecutionConfig : Type 0 where
    pub hooks : Hooks B
    pub claim_timeout : Duration
    pub unknown_task_policy : UnknownTaskPolicy
    pub fatal_on_lease_timeout : Bool
    pub on_error : Option WorkerErrorHandler

unfoldable pub wrong_queue : String → String → String → Error
wrong_queue task_name registered worker_queue = config (
    "task "
    <> Text.debug task_name
    <> " is registered for queue "
    <> Text.debug registered
    <> ", but was claimed by worker queue "
    <> Text.debug worker_queue)

module _ {B : Backend} where
  abbrev returned : Option PanicPayload → Action (World B) (Unit {0})
  returned none = pure tt
  returned (some p) = lift (panic p)

  -- The handler may panic.
  unfoldable pub report_execution_error :
      Option WorkerErrorHandler → Error → Action (World B) (Unit {0})
  report_execution_error none e = pure tt
  report_execution_error (some on_error) e =
      note (reported execution e) >> returned (on_error (record { kind = execution; error = e }))

  abbrev wrapped : Option (TaskExecution B → TaskExecution B) → TaskExecution B → TaskExecution B
  wrapped none execute = execute
  wrapped (some wrap) execute = wrap execute

  abbrev in_context : TaskExecution B → TaskContext → Action (World B) Json
  in_context execute ctx w =
      let (r, run) = execute (record { ctx = ctx; world = w }) in (r, run.world)

  -- The handler gets the parameters and the context, inside the hook if there is one.
  unfoldable pub run_handler :
      (Json → TaskExecution B) → Json → Hooks B → TaskContext → Action (World B) Json
  run_handler handler params hooks ctx =
      note user >> in_context (wrapped hooks.wrap_task_execution (handler params)) ctx

  -- The handler is told of the error after the run has been failed, also where that did not work.
  abbrev fail_and_report :
      Option WorkerErrorHandler → String → Uuid → Error → Action (World B) (Unit {0})
  fail_and_report on_error queue_name run_id e w =
      let (r, w') = fail_run_error queue_name run_id e w in
      (report_execution_error on_error e >> lift r) w'

  -- What is recorded of a handler's result. A panic unwinds.
  unfoldable pub record_result :
      Option WorkerErrorHandler → String → Uuid → Result Json → Action (World B) (Unit {0})
  unfolding report_execution_error complete_run fail_run_error
  record_result on_error queue_name run_id (ok value) = complete_run queue_name run_id value
  record_result on_error queue_name run_id (err e) =
      if is_control_flow e then pure tt else fail_and_report on_error queue_name run_id e
  record_result on_error queue_name run_id (panic p) = lift (panic p)

  -- The context is made with a sender for the lease, and the handler is run in it.
  unfoldable pub run_registered :
      RegisteredTask B → ClaimedTask → TaskExecutionConfig B → Action (World B) Json
  unfolding new_context run_handler
  run_registered registration task cfg = do
    ctx ← new_context registration.queue_name (record task { params = null }) cfg.claim_timeout true
    run_handler registration.handler task.params cfg.hooks ctx

  unfoldable pub execute_registered :
      String → RegisteredTask B → ClaimedTask → TaskExecutionConfig B → Action (World B) (Unit {0})
  unfolding run_registered record_result wrong_queue fail_run_error
  execute_registered worker_queue registration task cfg w =
      if not (str_eq registration.queue_name worker_queue)
      then fail_run_error worker_queue task.run_id
          (wrong_queue task.task_name registration.queue_name worker_queue) w
      else (let (r, w') = run_registered registration task cfg w in
          record_result cfg.on_error worker_queue task.run_id r w')

  abbrev execute_found :
      String
      → ClaimedTask
      → TaskExecutionConfig B
      → Option (RegisteredTask B)
      → Action (World B) (Unit {0})
  execute_found worker_queue task cfg none =
      handle_unknown_task worker_queue task cfg.unknown_task_policy
  execute_found worker_queue task cfg (some registration) =
      execute_registered worker_queue registration task cfg

  unfoldable pub execute_claimed :
      String → Registry B → ClaimedTask → TaskExecutionConfig B → Action (World B) (Unit {0})
  unfolding execute_registered handle_unknown_task get_registration
  execute_claimed worker_queue registry task cfg = do
    registration ← lift (get_registration registry task.task_name)
    execute_found worker_queue task cfg registration

  -- A panic of the spawned task is recorded as a failure of the run and reported.
  unfoldable pub catch_panic :
      Option WorkerErrorHandler → String → Uuid → Result (Unit {0}) → Action (World B) (Unit {0})
  unfolding fail_run_payload failure_payload panic_message report_execution_error
  catch_panic on_error worker_queue run_id (ok _) w = (ok tt, w)
  catch_panic on_error worker_queue run_id (err e) w = (err e, w)
  catch_panic on_error worker_queue run_id (panic p) w =
      let msg = "task panicked: " <> panic_message p in
      let payload = failure_payload "panic" (panic_message p) msg in
      let (r, w') = fail_run_payload worker_queue run_id payload w in
      (report_execution_error on_error (message msg) >> lift r) w'

  unfoldable pub execute_claimed_catching :
      String → Registry B → ClaimedTask → TaskExecutionConfig B → Action (World B) (Unit {0})
  unfolding execute_claimed catch_panic
  execute_claimed_catching worker_queue registry task cfg w =
      let (r, w') = execute_claimed worker_queue registry task cfg w in
      catch_panic cfg.on_error worker_queue task.run_id r w'
