-- ===== src/Tests/Runtime.antt =====
-- Witnesses for the worker, the execution of tasks and the waits.
use absurd_rust_sdk.Base.{
  ℕ, ◌+◌, ◌*◌, ◌≤◌, suc, ◌≡◌, refl, String, Bool, true, false, ◌&&◌, Option, none, some, List, [],
  ◌∷◌, ◌++◌, All, arith, leb, if◌then◌else◌,
}
use absurd_rust_sdk.Error.{Result, ok, panic, static_str}
use absurd_rust_sdk.Json.{Json, null}
use absurd_rust_sdk.Types.Worker.{defer}
use absurd_rust_sdk.Backend.{World, Action, slept, pure, lift}
use absurd_rust_sdk.Hooks.{TaskExecution, default_hooks}
use absurd_rust_sdk.TaskResult.{Snapshot, is_pending, is_sleeping, is_completed, is_terminal}
use absurd_rust_sdk.TaskResult.Await.{await_task_result_with_backoff}
use absurd_rust_sdk.TaskResult.Await.Paced.{after_sleep, await_task_result_with_backoff-Paused}
use absurd_rust_sdk.TaskResult.Await.Deadline.{await_task_result_with_backoff_ends}
use absurd_rust_sdk.TaskResult.Await.Outcome.{Seen, await_task_result_with_backoff_terminal}
use absurd_rust_sdk.Client.State.{RegisteredTask, Registry}
use absurd_rust_sdk.Executor.Execute.{TaskExecutionConfig, run_registered, execute_claimed_catching}
use absurd_rust_sdk.Executor.Finish.Calls.{Settled}
use absurd_rust_sdk.Executor.Execute.Outcome.{
  recorded_for, execute_claimed_catching_log, execute_claimed_catching-Settled,
}
use absurd_rust_sdk.Executor.Watchdog.{
  watching, elapsed, renewed, lease_watchdog, is_exited, missed_twice, lease_watchdog_exits,
}
use absurd_rust_sdk.Worker.{
  TaskEnd, succeeded, draining, closing, joined, none_joined, close, claimed, Input, State, start,
  worker_loop,
}
use absurd_rust_sdk.Worker.Invariant.{worker_loop_bounded}
use absurd_rust_sdk.Worker.Shutdown.{IsLeaving, worker_loop-IsLeaving}
use absurd_rust_sdk.Tests.Fixtures.{calm, calm_world, calm-Clock, test_id, test_task}

-- A handler that panics.
abbrev boom : Json → TaskExecution calm
boom params = lift (panic (static_str "boom"))

abbrev registered : RegisteredTask calm
registered = record {
  queue_name = "main";
  default_max_attempts = none;
  default_cancellation = none;
  handler = boom;
}

abbrev registry : Registry calm
registry = record { entries = ("mail", registered) ∷ []; poisoned = false }

abbrev cfg : TaskExecutionConfig calm
cfg = record {
  hooks = default_hooks;
  claim_timeout = 120_000_000_000;
  unknown_task_policy = defer;
  fatal_on_lease_timeout = true;
  on_error = some (λ e. none);
}

execute_claimed_catching_log_example :
    let (r, w) = run_registered registered test_task cfg calm_world in
    (execute_claimed_catching "main" registry test_task cfg calm_world).1.log
    ≡ recorded_for true "main" test_id r ++ w.log
unfolding absurd_rust_sdk.Client.State.get_registration absurd_rust_sdk.Base.lookup
execute_claimed_catching_log_example =
    execute_claimed_catching_log "main" registry test_task cfg registered calm_world (λ s. refl)
      (λ e. refl) refl refl

execute_claimed_catching-Settled_example :
    Settled (execute_claimed_catching "main" registry test_task cfg calm_world).0
unfolding absurd_rust_sdk.Client.State.get_registration absurd_rust_sdk.Base.lookup
execute_claimed_catching-Settled_example =
    execute_claimed_catching-Settled "main" registry test_task cfg registered calm_world (λ e. refl)
      refl refl

-- Two tasks are claimed, then the worker is told to stop and both end.
abbrev two_claimed : List Input
two_claimed = none_joined ∷ claimed 2 ∷ []

worker_loop_bounded_example :
    ((worker_loop 3 2 start two_claimed).running ≤ 3)
    × All (λ n. (1 ≤ n) × (n ≤ 3)) (worker_loop 3 2 start two_claimed).requests
unfolding absurd_rust_sdk.Worker.step
worker_loop_bounded_example =
    worker_loop_bounded 3 2 (omega arith) two_claimed (tt, (omega arith, tt))

abbrev busy : State
busy = worker_loop 3 2 start two_claimed

abbrev both_end : List TaskEnd
both_end = succeeded ∷ succeeded ∷ []

abbrev all_of_it : List Input
all_of_it = none_joined ∷ claimed 1 ∷ close ∷ none_joined ∷ joined succeeded ∷ none_joined ∷ []

abbrev leaving : State
leaving = record start { phase = closing; running = 1 }

worker_loop-IsLeaving_example :
    IsLeaving (worker_loop 3 2 leaving two_claimed).phase
    × ((worker_loop 3 2 leaving two_claimed).requests ≡ leaving.requests)
worker_loop-IsLeaving_example = worker_loop-IsLeaving 3 2 two_claimed leaving tt

lease_watchdog_exits_example :
    is_exited (lease_watchdog true (watching 5) (elapsed ∷ renewed 5 ∷ elapsed ∷ elapsed ∷ []))
    ≡ (true && missed_twice false (elapsed ∷ renewed 5 ∷ elapsed ∷ elapsed ∷ []))
lease_watchdog_exits_example =
    lease_watchdog_exits true 5 (elapsed ∷ renewed 5 ∷ elapsed ∷ elapsed ∷ [])

-- A task that is always pending, and one that is done.
abbrev never_done : Action (World calm) (Option Snapshot)
never_done = pure (some is_pending)

abbrev done : Action (World calm) (Option Snapshot)
done = pure (some (is_completed null))

abbrev nothing : Unit {0} → Action (World calm) (Unit {0})
nothing h = pure h

await_task_result_with_backoff_ends_example :
    (r : Result Snapshot × World calm) × (await_task_result_with_backoff never_done test_id
        (some 100_000_000)
        nothing
        3
        tt
        calm_world
      ≡ some r)
await_task_result_with_backoff_ends_example =
    await_task_result_with_backoff_ends calm-Clock never_done test_id 100_000_000 nothing
      (λ w. omega arith) (λ h w. omega arith) 2 tt calm_world (omega arith)

-- The task ends after 120 ms, which is after two sleeps.
abbrev ends_later : Action (World calm) (Option Snapshot)
ends_later w = (ok (some (if leb 120_000_000 w.state then is_completed null else is_sleeping)), w)

abbrev slept_twice : World calm
slept_twice = record { state = 150_000_000; log = slept 100_000_000 ∷ slept 50_000_000 ∷ [] }

await_task_result_with_backoff-Paused_example :
    await_task_result_with_backoff ends_later test_id none nothing 3 tt calm_world
    ≡ some (ok (is_completed null), slept_twice)
unfolding is_terminal
await_task_result_with_backoff-Paused_example =
    await_task_result_with_backoff-Paused ends_later test_id nothing 2 0 tt tt calm_world
      slept_twice slept_twice (is_completed null)
      (
        is_sleeping,
        calm_world,
        tt,
        calm_world,
        refl,
        refl,
        refl,
        (
          is_sleeping,
          after_sleep ends_later test_id nothing 50_000_000 calm_world,
          tt,
          after_sleep ends_later test_id nothing 50_000_000 calm_world,
          refl,
          refl,
          refl,
          (refl, refl),
        ),
      )
      refl refl

await_task_result_with_backoff_terminal_example :
    Seen {B = calm} done test_id none nothing (is_completed null) calm_world
unfolding await_task_result_with_backoff absurd_rust_sdk.TaskResult.Await.poll is_terminal
await_task_result_with_backoff_terminal_example =
    await_task_result_with_backoff_terminal done test_id none nothing 1 tt calm_world calm_world
      (is_completed null) refl
