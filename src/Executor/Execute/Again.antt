-- ===== src/Executor/Execute/Again.antt =====
-- A task that is claimed again: the executor goes on with its handler where the last execution stopped.
use absurd_rust_sdk.Base.{is_some, ◌≡◌, refl, sym, ap, ◌∙◌, String, true, none, some, ◌++◌}
use absurd_rust_sdk.Error.{Result, ok}
use absurd_rust_sdk.Json.{Json, null}
use absurd_rust_sdk.Types.Task.{ClaimedTask}
use absurd_rust_sdk.Backend.{Backend, Codec, World}
use absurd_rust_sdk.Context.State.{Run, TaskContext, new_context}
use absurd_rust_sdk.Context.Durable.{Durable, Survives}
use absurd_rust_sdk.Context.Durable.Checkpoints.{moved-IsCoherent}
use absurd_rust_sdk.Context.Attempt.{Handler, StepsReadBack, Passed, attempt, counted}
use absurd_rust_sdk.Context.Attempt.Survival.{
  StepsAreGentle, new_context-IsCoherent, kept_again, attempt_recovers,
}
use absurd_rust_sdk.Hooks.{TaskExecution}
use absurd_rust_sdk.Client.State.{RegisteredTask, Registry, get_registration}
use absurd_rust_sdk.Client.Erase.{erase}
use absurd_rust_sdk.Types.Worker.{Returns}
use absurd_rust_sdk.Executor.Finish.Calls.{AlwaysConnects}
use absurd_rust_sdk.Executor.Execute.{TaskExecutionConfig, run_registered, execute_claimed_catching}
use absurd_rust_sdk.Executor.Execute.Typed.{begun, written, run_registered-written}
use absurd_rust_sdk.Executor.Execute.Outcome.{recorded_for, execute_claimed_catching_log}

-- The handler as it is registered.
abbrev pub handler :
    {B : Backend} {P R : Type 0} → Codec P → Codec R → (P → Handler B R) → Json → TaskExecution B
handler params_codec result_codec h = erase params_codec result_codec (λ p. attempt (h p))

module _ {B : Backend} {P R : Type 0} (D : Durable B) (params_codec : Codec P)
    (result_codec : Codec R) (h : P → Handler B R) where
  module _ (registration : RegisteredTask B) (cfg : TaskExecutionConfig B)
      (task again : ClaimedTask) (p : P) (h' : Handler B R) (w u v x : World B)
      (ctx later : TaskContext) (s : Run B)
      (is_handler : registration.handler ≡ handler params_codec result_codec h)
      (unwrapped : cfg.hooks.wrap_task_execution ≡ none)
      (decoded : params_codec.from_value again.params ≡ ok p) (F : StepsReadBack (h p))
      (G : StepsAreGentle D registration.queue_name task.task_id (h p))
      (made : new_context registration.queue_name
          (record task { params = null })
          cfg.claim_timeout
          true
          w
        ≡ (ok ctx, u))
      (passed : Passed (h p) (begun ctx u) h' s)
      (lasts : Survives D registration.queue_name task.task_id s.world v)
      (same : again.task_id ≡ task.task_id)
      (remade : new_context registration.queue_name
          (record again { params = null })
          cfg.claim_timeout
          true
          v
        ≡ (ok later, x)) where
    left_over :
        attempt (h p) (begun later x) ≡ attempt h' (counted s.ctx.step_name_counter (begun later x))
    left_over =
        let q = registration.queue_name in
        let (before, first, kept, reads) =
          new_context-IsCoherent D q (record task { params = null }) cfg.claim_timeout true w u ctx
            made in
        let (still, reads', second) =
          kept_again D q (record task { params = null }) (record again { params = null })
            cfg.claim_timeout true s.world v x later same remade lasts in
        attempt_recovers D q task.task_id (h p) h' (begun ctx u) s (begun later x) F G
          (moved-IsCoherent D q task.task_id (record { ctx = ctx; world = u }) (begun ctx u) before
            refl (λ j y found there. there))
          passed still reads' (second ∙ sym first)

    pub run_registered_continues :
        run_registered registration again cfg v
        ≡ written result_codec (attempt h' (counted s.ctx.step_name_counter (begun later x)))
    run_registered_continues =
        run_registered-written result_codec params_codec (λ p. attempt (h p)) registration again cfg
          p v x later is_handler unwrapped decoded remade
        ∙ ap (written result_codec) left_over

    -- A task is executed, passes a part of its handler and stops, and is claimed again. Then the
    -- execution does what was left of the handler, in a context with the same counts, and what is
    -- recorded is how that ends: a value completes the run, a suspension or a lost race leaves it
    -- alone, any other error and a panic fails it. The task is registered with this handler for the
    -- worker's queue, no hook is around it, the error handler returns, and the pool has a connection. The
    -- database is as it
    -- promises and has not lost the task's checkpoints in between, no step takes any away, and what
    -- the steps return reads back from its JSON.
    pub execution_continues :
        (q : String) (g : Registry B)
        → AlwaysConnects B
        → Returns cfg.on_error
        → get_registration g again.task_name ≡ ok (some registration)
        → registration.queue_name ≡ q
        → let (r, end) =
            written result_codec (attempt h' (counted s.ctx.step_name_counter (begun later x))) in
          (execute_claimed_catching q g again cfg v).1.log
          ≡ recorded_for (is_some cfg.on_error) q again.run_id r ++ end.log
    execution_continues q g connects returns found for_queue =
        execute_claimed_catching_log q g again cfg registration v connects returns found for_queue
        ∙ ap
            (λ (m : Result Json × World B).
              recorded_for (is_some cfg.on_error) q again.run_id m.0 ++ m.1.log)
            run_registered_continues
