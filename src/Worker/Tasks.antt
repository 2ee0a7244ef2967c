-- ===== src/Worker/Tasks.antt =====
-- The tasks that the loop of src/worker.rs spawns: each one executes a claimed task.
use absurd_rust_sdk.Base.{String, ◌<>◌, Option, some}
use absurd_rust_sdk.Error.{JoinError, PanicPayload, Result, ok, err, panic, message, Uuid}
use absurd_rust_sdk.Types.Task.{ClaimedTask}
use absurd_rust_sdk.Backend.{Backend, World}
use absurd_rust_sdk.Types.Worker.{NormalizedWorkerOptions, WorkerErrorHandler, Returns}
use absurd_rust_sdk.Hooks.{Hooks}
use absurd_rust_sdk.Client.State.{Registry}
use absurd_rust_sdk.Executor.Finish.Calls.{Settled, fail_run_payload-Settled}
use absurd_rust_sdk.Executor.Execute.{
  TaskExecutionConfig, execute_claimed, execute_claimed_catching, catch_panic,
}
use absurd_rust_sdk.Executor.Payload.{failure_payload, panic_message}
use absurd_rust_sdk.Executor.Finish.{fail_run_payload}
use absurd_rust_sdk.Executor.Execute.Outcome.{report_returned}
use absurd_rust_sdk.Worker.{TaskEnd, succeeded, failed, broken}
use absurd_rust_sdk.Worker.Shutdown.{EndsAlone}

-- How a spawned task is joined. `join_error` is tokio's account of a panic.
unfoldable pub task_end : (PanicPayload → JoinError) → Result (Unit {0}) → TaskEnd
task_end join_error (ok x) = succeeded
task_end join_error (err e) = failed e
task_end join_error (panic p) = broken (join_error p)

-- `TaskExecutionConfig { … }`; there is always an error handler to call.
abbrev pub task_config :
    {B : Backend} → Hooks B → NormalizedWorkerOptions WorkerErrorHandler → TaskExecutionConfig B
task_config hooks options = record {
  hooks = hooks;
  claim_timeout = options.claim_timeout;
  unknown_task_policy = options.unknown_task_policy;
  fatal_on_lease_timeout = options.fatal_on_lease_timeout;
  on_error = some options.on_error;
}

-- `running.spawn(…)`, and how the task ends when it is run.
unfoldable pub spawned_task :
    {B : Backend}
    → (PanicPayload → JoinError)
    → String
    → Registry B
    → Hooks B
    → NormalizedWorkerOptions WorkerErrorHandler
    → ClaimedTask
    → World B
    → TaskEnd × World B
unfolding task_end execute_claimed_catching
spawned_task join_error q registry hooks options task w =
    let (r, w') = execute_claimed_catching q registry task (task_config hooks options) w in
    (task_end join_error r, w')

Settled-EndsAlone :
    (join_error : PanicPayload → JoinError) (r : Result (Unit {0}))
    → Settled r
    → EndsAlone (task_end join_error r)
unfolding task_end
Settled-EndsAlone join_error (ok x) h = tt
Settled-EndsAlone join_error (err e) h = tt
Settled-EndsAlone join_error (panic p) h = absurd h

module _ {B : Backend} where
  caught :
      (join_error : PanicPayload → JoinError) (o : Option WorkerErrorHandler) (q : String)
      (id : Uuid) (r : Result (Unit {0})) (w : World B)
      → Returns o
      → EndsAlone (task_end join_error (catch_panic o q id r w).0)
  unfolding catch_panic task_end
  caught join_error o q id (ok x) w returns = tt
  caught join_error o q id (err e) w returns = tt
  caught join_error o q id (panic p) w returns =
      let msg = "task panicked: " <> panic_message p in
      let payload = failure_payload "panic" (panic_message p) msg in
      let (r, v) = fail_run_payload q id payload w in
      rw (report_returned o (message msg) r v returns)
        (Settled-EndsAlone join_error r (fail_run_payload-Settled q id payload w))

  -- No task can break the worker: whatever it claims, and whatever handlers and hooks do, also when
  -- they panic, the spawned task ends by itself, if the error handler returns from every call.
  pub spawned_task-EndsAlone :
      (join_error : PanicPayload → JoinError) (q : String) (g : Registry B) (hooks : Hooks B)
      (options : NormalizedWorkerOptions WorkerErrorHandler) (task : ClaimedTask) (w : World B)
      → Returns (some options.on_error)
      → EndsAlone (spawned_task join_error q g hooks options task w).0
  unfolding spawned_task execute_claimed_catching
  spawned_task-EndsAlone join_error q g hooks options task w returns =
      let (r, w') = execute_claimed q g task (task_config hooks options) w in
      caught join_error (some options.on_error) q task.run_id r w' returns
