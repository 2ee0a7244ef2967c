-- ===== src/Executor/Execute/Outcome.antt =====
-- What is recorded of an execution.
use absurd_rust_sdk.Base.{
  ◌≡◌, refl, sym, ap, ◌∙◌, append_assoc, is_some, Option, String, ◌<>◌, Bool, true, false, none,
  some, List, [], ◌∷◌, ◌++◌, Bool-cases, inl, inr, if◌then◌else◌, eq_iff,
}
use absurd_rust_sdk.Error.{Uuid, Error, Result, ok, err, panic, message, is_control_flow}
use absurd_rust_sdk.Json.{Json}
use absurd_rust_sdk.Types.Task.{ClaimedTask}
use absurd_rust_sdk.Types.Worker.{WorkerErrorHandler, Returns, execution}
use absurd_rust_sdk.Backend.{
  Backend, World, Action, lift, ◌>>◌, Event, sql, reported, complete_run as complete_run_call,
  fail_run as fail_run_call,
}
use absurd_rust_sdk.Client.State.{RegisteredTask, Registry, get_registration}
use absurd_rust_sdk.Executor.Payload.{failure_payload, error_failure_payload, panic_message}
use absurd_rust_sdk.Executor.Finish.{complete_run, fail_run_payload, fail_run_error}
use absurd_rust_sdk.Executor.Finish.Calls.{
  AlwaysConnects, Settled, complete_run-Settled, fail_run_payload-Settled, complete_run_log,
  fail_run_payload_log, Records, complete_run_ok, fail_run_payload_ok,
}
use absurd_rust_sdk.Executor.Execute.{
  TaskExecutionConfig, report_execution_error, record_result, run_registered, execute_registered,
  execute_claimed, catch_panic, execute_claimed_catching,
}

abbrev reports_of : Bool → Error → List Event
reports_of true e = reported execution e ∷ []
reports_of false e = []

-- What is to be done, the latest first, about the way in which a handler ended.
unfoldable pub recorded_for : Bool → String → Uuid → Result Json → List Event
recorded_for reports queue_name run_id (ok value) =
    sql (complete_run_call queue_name run_id value) ∷ []
recorded_for reports queue_name run_id (err e) =
    if is_control_flow e
    then []
    else reports_of reports e
      ++ sql (fail_run_call queue_name run_id (error_failure_payload e) none) ∷ []
recorded_for reports queue_name run_id (panic p) =
    let msg = "task panicked: " <> panic_message p in
    reports_of reports (message msg)
    ++ sql (fail_run_call queue_name run_id (failure_payload "panic" (panic_message p) msg) none)
      ∷ []

module _ {B : Backend} where
  -- The run of a handler, recorded.
  abbrev settle :
      Option WorkerErrorHandler → String → Uuid → Result Json → Action (World B) (Unit {0})
  settle o q id r w = let (x, w') = record_result o q id r w in catch_panic o q id x w'

  settle_ok :
      (o : Option WorkerErrorHandler) (q : String) (id : Uuid) (m : Result (Unit {0}) × World B)
      → Settled m.0
      → catch_panic o q id m.0 m.1 ≡ m
  unfolding catch_panic
  settle_ok o q id (ok x, w) h = refl
  settle_ok o q id (err e, w) h = refl
  settle_ok o q id (panic p, w) h = absurd h

  -- A handler that returns changes nothing but the log.
  pub report_returned :
      (o : Option WorkerErrorHandler) (e : Error) (r : Result (Unit {0})) (w : World B)
      → Returns o
      → (report_execution_error o e >> lift r) w
        ≡ (r, record w { log = reports_of (is_some o) e ++ w.log })
  unfolding report_execution_error
  report_returned none e r w returns = refl
  report_returned (some on_error) e r w returns =
      rw (returns (record { kind = execution; error = e })) refl

  module _ (o : Option WorkerErrorHandler) (returns : Returns o) (q : String) (id : Uuid) where
    settle-Settled : (r : Result Json) (w : World B) → Settled (settle o q id r w).0
    unfolding record_result fail_run_error catch_panic
    settle-Settled (ok v) w =
        rw (settle_ok o q id (complete_run q id v w) (complete_run-Settled q id v w))
          (complete_run-Settled q id v w)
    settle-Settled (err e) w = elim (Bool-cases (is_control_flow e)) [
      | inl flow ↦ rw flow tt
      | inr real ↦
          let h = fail_run_payload-Settled q id (error_failure_payload e) w in
          let (r, v) = fail_run_error q id e w in
          rw
            (
              real,
              report_returned o e r v returns,
              settle_ok o q id (r, record v { log = reports_of (is_some o) e ++ v.log }) h,
            )
            h
    ]
    settle-Settled (panic p) w =
        let msg = "task panicked: " <> panic_message p in
        let payload = failure_payload "panic" (panic_message p) msg in
        let (r, v) = fail_run_payload q id payload w in
        rw (report_returned o (message msg) r v returns) (fail_run_payload-Settled q id payload w)

    after_report :
        (e : Error) (x : Event) (w v : World B)
        → v.log ≡ x ∷ w.log
        → reports_of (is_some o) e ++ v.log ≡ (reports_of (is_some o) e ++ x ∷ []) ++ w.log
    after_report e x w v h =
        ap (λ log. reports_of (is_some o) e ++ log) h
        ∙ sym (append_assoc (reports_of (is_some o) e) (x ∷ []) w.log)

    module _ (connects : AlwaysConnects B) where
      settle_log :
          (r : Result Json) (w : World B)
          → (settle o q id r w).1.log ≡ recorded_for (is_some o) q id r ++ w.log
      unfolding record_result fail_run_error catch_panic recorded_for
      settle_log (ok v) w =
          rw (settle_ok o q id (complete_run q id v w) (complete_run-Settled q id v w))
            (complete_run_log connects q id v w)
      settle_log (err e) w = elim (Bool-cases (is_control_flow e)) [
        | inl flow ↦ rw flow refl
        | inr real ↦
            let h = fail_run_payload-Settled q id (error_failure_payload e) w in
            let (r, v) = fail_run_error q id e w in
            rw
              (
                real,
                report_returned o e r v returns,
                settle_ok o q id (r, record v { log = reports_of (is_some o) e ++ v.log }) h,
              )
              (after_report e _ w v
                (fail_run_payload_log connects q id (error_failure_payload e) w))
      ]
      settle_log (panic p) w =
          let msg = "task panicked: " <> panic_message p in
          let payload = failure_payload "panic" (panic_message p) msg in
          let (r, v) = fail_run_payload q id payload w in
          rw (report_returned o (message msg) r v returns)
            (after_report (message msg) _ w v (fail_run_payload_log connects q id payload w))

    module _ (records : Records B) where
      settle_done : (r : Result Json) (w : World B) → (settle o q id r w).0 ≡ ok tt
      unfolding record_result fail_run_error catch_panic
      settle_done (ok v) w =
          rw (settle_ok o q id (complete_run q id v w) (complete_run-Settled q id v w))
            (complete_run_ok records q id v w)
      settle_done (err e) w = elim (Bool-cases (is_control_flow e)) [
        | inl flow ↦ rw flow refl
        | inr real ↦
            let h = fail_run_payload-Settled q id (error_failure_payload e) w in
            let (r, v) = fail_run_error q id e w in
            rw
              (
                real,
                report_returned o e r v returns,
                settle_ok o q id (r, record v { log = reports_of (is_some o) e ++ v.log }) h,
              )
              (fail_run_payload_ok records q id (error_failure_payload e) w)
      ]
      settle_done (panic p) w =
          let msg = "task panicked: " <> panic_message p in
          let payload = failure_payload "panic" (panic_message p) msg in
          let (r, v) = fail_run_payload q id payload w in
          rw (report_returned o (message msg) r v returns)
            (fail_run_payload_ok records q id payload w)

  executes :
      (q : String) (g : Registry B) (task : ClaimedTask) (cfg : TaskExecutionConfig B)
      (registration : RegisteredTask B) (w : World B)
      → get_registration g task.task_name ≡ ok (some registration)
      → registration.queue_name ≡ q
      → let (r, w') = run_registered registration task cfg w in
        execute_claimed_catching q g task cfg w ≡ settle cfg.on_error q task.run_id r w'
  unfolding execute_claimed_catching execute_claimed execute_registered
  executes q g task cfg registration w found same =
      rw (found, (eq_iff registration.queue_name q).1 same) refl

  -- A claimed task that is registered for the worker's queue is executed, and then exactly this is
  -- done about how that ended: a value completes the run; a suspension or a lost race leaves it
  -- alone; any other error, and a panic, fails the run and then reports to the error handler if
  -- there is one. The pool has to have a connection, and the error handler has to return.
  pub execute_claimed_catching_log :
      (q : String) (g : Registry B) (task : ClaimedTask) (cfg : TaskExecutionConfig B)
      (registration : RegisteredTask B) (w : World B)
      → AlwaysConnects B
      → Returns cfg.on_error
      → get_registration g task.task_name ≡ ok (some registration)
      → registration.queue_name ≡ q
      → let (r, w') = run_registered registration task cfg w in
        (execute_claimed_catching q g task cfg w).1.log
        ≡ recorded_for (is_some cfg.on_error) q task.run_id r ++ w'.log
  execute_claimed_catching_log q g task cfg registration w connects returns found same =
      ap (λ (m : Result (Unit {0}) × World B). m.1.log)
        (executes q g task cfg registration w found same)
      ∙ (let (r, w') = run_registered registration task cfg w in
          settle_log cfg.on_error returns q task.run_id connects r w')

  -- Whatever the task's handler does, also when it panics, the execution of such a task ends in
  -- success or in an error that is no lost race. It does not panic, if the error handler returns
  -- from every call.
  pub execute_claimed_catching-Settled :
      (q : String) (g : Registry B) (task : ClaimedTask) (cfg : TaskExecutionConfig B)
      (registration : RegisteredTask B) (w : World B)
      → Returns cfg.on_error
      → get_registration g task.task_name ≡ ok (some registration)
      → registration.queue_name ≡ q
      → Settled (execute_claimed_catching q g task cfg w).0
  execute_claimed_catching-Settled q g task cfg registration w returns found same =
      rw (executes q g task cfg registration w found same) (
        let (r, w') = run_registered registration task cfg w in
        settle-Settled cfg.on_error returns q task.run_id r w')

  -- Such an execution ends in success when the database takes every end of a run.
  pub execute_claimed_catching_done :
      (q : String) (g : Registry B) (task : ClaimedTask) (cfg : TaskExecutionConfig B)
      (registration : RegisteredTask B) (w : World B)
      → Records B
      → Returns cfg.on_error
      → get_registration g task.task_name ≡ ok (some registration)
      → registration.queue_name ≡ q
      → (execute_claimed_catching q g task cfg w).0 ≡ ok tt
  execute_claimed_catching_done q g task cfg registration w records returns found same =
      rw (executes q g task cfg registration w found same) (
        let (r, w') = run_registered registration task cfg w in
        settle_done cfg.on_error returns q task.run_id records r w')
