-- ===== src/Executor/Execute/Renewals.antt =====
-- What the watchdog is told while the executor runs a handler that uses its context.
use absurd_rust_sdk.Base.{
  is_some, ◌≡◌, refl, String, Bool, true, false, none, some, List, [], ◌++◌, Bool-cases, inl, inr,
}
use absurd_rust_sdk.Error.{Uuid, Result, ok, err, panic, is_control_flow}
use absurd_rust_sdk.Json.{Json, null}
use absurd_rust_sdk.Types.Duration.{Duration}
use absurd_rust_sdk.Types.Task.{ClaimedTask}
use absurd_rust_sdk.Backend.{
  Backend, Codec, World, Event, call, lift, carried_on, Ended, always-Ended, Ended-bind, Ended-then,
  get_task_checkpoint_states,
}
use absurd_rust_sdk.Context.State.{Run, TaskContext, new_context, read_headers}
use absurd_rust_sdk.Context.Program.{Program, perform}
use absurd_rust_sdk.Context.Lease.{OfRun, Since, IsLeased, Renewed, call-Since, user-Since}
use absurd_rust_sdk.Context.Lease.Operations.{Silent, Silent-Since}
use absurd_rust_sdk.Context.Lease.Programs.{StepsAreSilent, perform-IsLeased}
use absurd_rust_sdk.Client.State.{RegisteredTask, Registry, get_registration}
use absurd_rust_sdk.Client.Erase.{erase}
use absurd_rust_sdk.Types.Worker.{Returns}
use absurd_rust_sdk.Executor.Finish.Calls.{AlwaysConnects}
use absurd_rust_sdk.Executor.Execute.{
  TaskExecutionConfig, run_registered, run_handler, execute_claimed_catching,
}
use absurd_rust_sdk.Executor.Execute.Typed.{begun}
use absurd_rust_sdk.Executor.Execute.Outcome.{recorded_for, execute_claimed_catching_log}

recorded_for-Silent :
    (reports : Bool) (q : String) (run : Uuid) (r : Result Json)
    → Silent (recorded_for reports q run r)
unfolding recorded_for
recorded_for-Silent reports q run (ok v) = tt
recorded_for-Silent true q run (panic p) = tt
recorded_for-Silent false q run (panic p) = tt
recorded_for-Silent true q run (err e) = elim (Bool-cases (is_control_flow e)) [
  | inl flow ↦ rw flow tt
  | inr real ↦ rw real tt
]
recorded_for-Silent false q run (err e) = elim (Bool-cases (is_control_flow e)) [
  | inl flow ↦ rw flow tt
  | inr real ↦ rw real tt
]

module _ {B : Backend} (q : String) (base : List Event) where
  new_context-Ended :
      (task : ClaimedTask) (d : Duration) (has_lease : Bool) (w : World B)
      → Since q task.run_id base w
      → Ended
          (λ ctx s. OfRun q task.run_id ctx × Since q task.run_id base s)
          (λ s. Since q task.run_id base s)
          (new_context q task d has_lease w)
  unfolding new_context
  new_context-Ended task d has_lease w h =
      let c = get_task_checkpoint_states q task.task_id task.run_id in
      let I = λ (s : World B). Since q task.run_id base s in
      Ended-bind (λ rows s. I s) _ I (call c w) _
        (always-Ended I (call c w) (call-Since q task.run_id base c w h))
        λ rows s g.
          Ended-bind (λ headers s. I s) _ I (read_headers task.headers, s) _
            (always-Ended I (read_headers task.headers, s) g)
            (λ headers s g. ((refl, refl, refl), g))

module _ {B : Backend} {P R : Type 0} (params_codec : Codec P) (result_codec : Codec R)
    (h : P → Program B R) (q : String) (registration : RegisteredTask B) (task : ClaimedTask)
    (cfg : TaskExecutionConfig B)
    (is_handler : registration.handler ≡ erase params_codec result_codec (λ p. perform (h p)))
    (for_queue : registration.queue_name ≡ q) (unwrapped : cfg.hooks.wrap_task_execution ≡ none)
    (silent : (p : P) → StepsAreSilent (h p)) where
  module _ (base : List Event) where
    handler-IsLeased :
        (v : Json) (r : Run B)
        → IsLeased q task.run_id base r
        → IsLeased q task.run_id base (erase params_codec result_codec (λ p. perform (h p)) v r).1
    unfolding erase
    handler-IsLeased v r g =
        let I = λ (s : Run B). IsLeased q task.run_id base s in
        carried_on I (params_codec.from_value v, r) _ g
          λ p s k.
            carried_on I (perform (h p) s) (λ a. lift (result_codec.to_value a))
              (perform-IsLeased q task.run_id base (h p) s (silent p) k) (λ a s k. k)

    run_handler-Since :
        (v : Json) (ctx : TaskContext) (w : World B)
        → OfRun q task.run_id ctx
        → Since q task.run_id base w
        → Since q task.run_id base (run_handler registration.handler v cfg.hooks ctx w).1
    unfolding run_handler
    run_handler-Since v ctx w of_run since =
        rw (unwrapped, is_handler)
          (handler-IsLeased v (begun ctx w) (of_run, user-Since q task.run_id base w since)).1

    run_registered-Since :
        (w : World B)
        → Since q task.run_id base w
        → Since q task.run_id base (run_registered registration task cfg w).1
    unfolding run_registered
    run_registered-Since w since = rw for_queue (
        Ended-then _ (λ s. Since q task.run_id base s)
          (new_context q (record task { params = null }) cfg.claim_timeout true w)
          (run_handler registration.handler task.params cfg.hooks)
          (new_context-Ended q base (record task { params = null }) cfg.claim_timeout true w since)
          λ ctx s g. run_handler-Since task.params ctx s g.0 g.1)

  -- While a claimed task is executed, the watchdog is told of a duration only right after a call
  -- that asks the database, for this run and on this queue, to extend the claim by that duration,
  -- rounded up to whole seconds and capped at i32::MAX. The handler may make steps, await and emit
  -- events, sleep and send heartbeats, and it may end in any way. The task is registered with this
  -- handler for the worker's queue, no hook is around it, the functions of its steps tell the
  -- watchdog nothing, the error handler returns, and the pool has a connection.
  pub execution_renewals :
      (g : Registry B) (w : World B)
      → AlwaysConnects B
      → Returns cfg.on_error
      → get_registration g task.task_name ≡ ok (some registration)
      → (new : List Event) × ((execute_claimed_catching q g task cfg w).1.log ≡ new ++ w.log)
        × Renewed q task.run_id new
  execution_renewals g w connects returns found =
      let (r, s) = run_registered registration task cfg w in
      Silent-Since q task.run_id w.log (recorded_for (is_some cfg.on_error) q task.run_id r) s
        (execute_claimed_catching q g task cfg w).1
        (execute_claimed_catching_log q g task cfg registration w connects returns found for_queue)
        (recorded_for-Silent (is_some cfg.on_error) q task.run_id r)
        (run_registered-Since w.log w ([], refl, tt))
