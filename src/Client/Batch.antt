-- ===== src/Client/Batch.antt =====
-- Claiming tasks and working them off one by one, in src/client.rs.
pub mod Worked
pub mod Recorded
use absurd_rust_sdk.Base.{ℕ, max, min, String, List, [], ◌∷◌, false, none, length}
use absurd_rust_sdk.Types.Duration.{i32_max}
use absurd_rust_sdk.Types.Task.{ClaimedTask}
use absurd_rust_sdk.Types.Worker.{WorkBatchOptions, worker_id_value, batch_claim_timeout_seconds}
use absurd_rust_sdk.Backend.{Backend, World, Action, call, pure, lift, ◌>>=◌, ◌>>◌, claim_task}
use absurd_rust_sdk.Client.State.{Client}
use absurd_rust_sdk.Executor.Execute.{TaskExecutionConfig, execute_claimed_catching}

module _ {B : Backend} where
  unfoldable pub claim_tasks : String → String → ℕ → ℕ → Action (World B) (List ClaimedTask)
  claim_tasks queue_name worker_id claim_timeout_seconds batch_size =
      call (claim_task queue_name worker_id claim_timeout_seconds batch_size)

  abbrev pub batch_config : Client B → WorkBatchOptions → TaskExecutionConfig B
  batch_config c options = record {
    hooks = c.hooks;
    claim_timeout = options.claim_timeout;
    unknown_task_policy = options.unknown_task_policy;
    fatal_on_lease_timeout = false;
    on_error = none;
  }

  -- The first task whose end cannot be recorded stops the batch.
  unfoldable pub work_tasks :
      Client B → TaskExecutionConfig B → List ClaimedTask → Action (World B) (Unit {0})
  unfolding execute_claimed_catching
  work_tasks c cfg [] = pure tt
  work_tasks c cfg (task ∷ tasks) =
      execute_claimed_catching c.queue_name c.registry task cfg >> work_tasks c cfg tasks

  unfoldable pub work_batch : Client B → WorkBatchOptions → Action (World B) ℕ
  unfolding claim_tasks work_tasks worker_id_value batch_claim_timeout_seconds
  work_batch c options = do
    claim_timeout_seconds ← lift (batch_claim_timeout_seconds options)
    tasks ←
        claim_tasks c.queue_name (worker_id_value options) claim_timeout_seconds
          (min (max options.batch_size 1) i32_max)
    work_tasks c (batch_config c options) tasks
    pure (length tasks)
