-- ===== src/Worker.antt =====
-- src/worker.rs: the worker's loop, as a machine that takes one step for each thing that its awaits
-- give it. What the awaits give, and when tasks end, is an input.
pub mod Invariant
pub mod Shutdown
pub mod Service
pub mod Handle
pub mod Tasks
pub mod Close
use absurd_rust_sdk.Base.{
  ℕ, suc, zero, ◌+◌, ◌-◌, min, Bool, true, false, ◌||◌, List, [], ◌∷◌, ◌==◌, if◌then◌else◌,
}
use absurd_rust_sdk.Error.{Error, JoinError, Result, ok, err, join}
use absurd_rust_sdk.Types.Duration.{i32_max}
use absurd_rust_sdk.Types.Worker.{WorkerErrorKind, claim, execution, NormalizedWorkerOptions}

-- How a spawned task ends: with the result of `execute_claimed_catching`, or with a join error.
pub data TaskEnd : Type 0 where
  succeeded : TaskEnd
  failed : Error → TaskEnd
  broken : JoinError → TaskEnd

pub data Phase : Type 0 where
  -- at the head of the loop, in `drain_finished`
  draining : Phase
  -- in `wait_for_capacity_or_shutdown`
  waiting_capacity : Phase
  -- in `claim_tasks`, for so many tasks
  claiming : ℕ → Phase
  -- in `wait_poll_interval_or_shutdown`
  waiting_poll : Phase
  -- behind the loop, in `while let Some(result) = running.join_next()`
  closing : Phase
  -- returned; the tasks of a dropped `JoinSet` are aborted
  stopped : Result (Unit {0}) → Phase

pub data Input : Type 0 where
  -- a task of the join set has ended and is joined
  joined : TaskEnd → Input
  -- no task has ended: `try_join_next` gives `None`
  none_joined : Input
  -- `Worker::close` or the drop of the worker sends `true`
  close : Input
  -- `shutdown_rx.changed()` is ready; `dropped`: the sender is gone
  changed : Bool → Input
  -- the poll interval is over
  timer : Input
  -- `claim_tasks` gives so many tasks, or fails
  claimed : ℕ → Input
  claim_failed : Error → Input

-- `running` counts the tasks in the join set; `reports` are the calls of the error handler and
-- `requests` the sizes that tasks were claimed in, the latest first.
pub record State : Type 0 where
  pub phase : Phase
  pub running : ℕ
  pub shutdown : Bool
  pub reports : List (WorkerErrorKind × Error)
  pub requests : List ℕ

abbrev pub start : State
start = record { phase = draining; running = 0; shutdown = false; reports = []; requests = [] }

module _ (concurrency batch_size : ℕ) where
  -- The size of the next claim; the cast to `i32` is exact.
  abbrev pub to_claim : State → ℕ
  to_claim s = min (min (concurrency - s.running) batch_size) i32_max

  -- From the end of `drain_finished` to the next await.
  unfoldable pub after_drain : State → State
  after_drain s =
      if s.shutdown
      then record s { phase = closing }
      else if concurrency - s.running == 0
      then record s { phase = waiting_capacity }
      else record s { phase = claiming (to_claim s); requests = to_claim s ∷ s.requests }

  -- `report_task_result`, and where the caller goes on if it returns no error.
  unfoldable pub report_task_result : TaskEnd → Phase → State → State
  report_task_result succeeded next s = record s { phase = next; running = s.running - 1 }
  report_task_result (failed e) next s = record s {
    phase = next;
    running = s.running - 1;
    reports = (execution, e) ∷ s.reports;
  }
  report_task_result (broken j) next s = record s {
    phase = stopped (err (join j));
    running = 0;
    reports = (execution, join j) ∷ s.reports;
  }

  -- A task can be joined only while there is one.
  unfoldable pub join_one : TaskEnd → Phase → State → State
  unfolding report_task_result
  join_one e next s = if s.running == 0 then s else report_task_result e next s

  -- `changed.is_err() || *shutdown_rx.borrow()`
  unfoldable pub on_change : Bool → State → State
  on_change dropped s =
      if dropped || s.shutdown then record s { phase = closing } else record s { phase = draining }

  -- An input that the phase does not wait for changes nothing.
  unfoldable pub dispatch : Phase → Input → State → State
  unfolding after_drain join_one on_change
  dispatch _ close s = record s { shutdown = true }
  dispatch draining (joined e) s = join_one e draining s
  dispatch draining none_joined s = after_drain s
  dispatch waiting_capacity (changed dropped) s = on_change dropped s
  dispatch waiting_capacity (joined e) s = join_one e draining s
  dispatch (claiming n) (claimed zero) s = record s { phase = waiting_poll }
  dispatch (claiming n) (claimed (suc k)) s = record s {
    phase = draining;
    running = s.running + suc k;
  }
  dispatch (claiming n) (claim_failed e) s = record s {
    phase = waiting_poll;
    reports = (claim, e) ∷ s.reports;
  }
  dispatch waiting_poll (changed dropped) s = on_change dropped s
  dispatch waiting_poll timer s = record s { phase = draining }
  dispatch waiting_poll (joined e) s = join_one e draining s
  dispatch closing (joined e) s = join_one e closing s
  dispatch closing none_joined s =
      if s.running == 0 then record s { phase = stopped (ok tt) } else s
  dispatch _ _ s = s

  unfoldable pub step : State → Input → State
  unfolding dispatch
  step s i = dispatch s.phase i s

  unfoldable pub worker_loop : State → List Input → State
  unfolding step
  worker_loop s [] = s
  worker_loop s (i ∷ is) = worker_loop (step s i) is
