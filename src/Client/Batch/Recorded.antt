-- ===== src/Client/Batch/Recorded.antt =====
-- A batch goes on after a handler that fails, in src/client.rs with src/executor.rs.
use absurd_rust_sdk.Base.{ℕ, max, min, ◌≡◌, refl, ap, ◌∙◌, List, [], ◌∷◌, ◌++◌, length, some, false}
use absurd_rust_sdk.Error.{Result, ok}
use absurd_rust_sdk.Types.Duration.{i32_max}
use absurd_rust_sdk.Types.Task.{ClaimedTask}
use absurd_rust_sdk.Types.Worker.{WorkBatchOptions, worker_id_value, batch_claim_timeout_seconds}
use absurd_rust_sdk.Backend.{Backend, World, Action}
use absurd_rust_sdk.Client.State.{Client, RegisteredTask, get_registration}
use absurd_rust_sdk.Client.Batch.{claim_tasks, batch_config, work_tasks, work_batch}
use absurd_rust_sdk.Executor.Execute.{TaskExecutionConfig, run_registered, execute_claimed_catching}
use absurd_rust_sdk.Executor.Execute.Outcome.{
  recorded_for, execute_claimed_catching_log, execute_claimed_catching_done,
}
use absurd_rust_sdk.Executor.Finish.Calls.{Records}

module _ {B : Backend} (c : Client B) where
  -- A task that is registered for the client's queue.
  abbrev pub Known : ClaimedTask → Type 0
  Known task =
      (registration : RegisteredTask B) × (get_registration c.registry task.task_name
        ≡ ok (some registration))
      × (registration.queue_name ≡ c.queue_name)

  abbrev pub AreKnown : List ClaimedTask → Type 0
  AreKnown [] = Unit
  AreKnown (task ∷ tasks) = Known task × AreKnown tasks

  module _ (o : WorkBatchOptions) where
    abbrev cfg : TaskExecutionConfig B
    cfg = batch_config c o

    abbrev pub claim : ℕ → Action (World B) (List ClaimedTask)
    claim t = claim_tasks c.queue_name (worker_id_value o) t (min (max o.batch_size 1) i32_max)

    -- From `w` to `u` the task was executed with success: its run, however that went, was recorded.
    abbrev pub Settles : (task : ClaimedTask) → Known task → World B → World B → Type 0
    Settles task (registration, found, same) w u =
        let (r, w') = run_registered registration task cfg w in
        (execute_claimed_catching c.queue_name c.registry task cfg w ≡ (ok tt, u))
        × (u.log ≡ recorded_for false c.queue_name task.run_id r ++ w'.log)

    -- The tasks are settled one after the other.
    abbrev pub AllSettle : (tasks : List ClaimedTask) → AreKnown tasks → World B → World B → Type 0
    AllSettle [] known w s = w ≡ s
    AllSettle (task ∷ tasks) (known, more) w s =
        (u : World B) × Settles task known w u × AllSettle tasks more u s

    abbrev SettledLog : (task : ClaimedTask) → Known task → World B → World B → Type 0
    SettledLog task (registration, found, same) w u =
        let (r, w') = run_registered registration task cfg w in
        u.log ≡ recorded_for false c.queue_name task.run_id r ++ w'.log

    abbrev AllDone : (tasks : List ClaimedTask) → AreKnown tasks → World B → Type 0
    AllDone tasks known w =
        (s : World B) × (work_tasks c cfg tasks w ≡ (ok tt, s)) × AllSettle tasks known w s

    goes_on :
        (task : ClaimedTask) (known : Known task) (tasks : List ClaimedTask) (more : AreKnown tasks)
        (w : World B) (m : Result (Unit {0}) × World B)
        → execute_claimed_catching c.queue_name c.registry task cfg w ≡ m
        → m.0 ≡ ok tt
        → SettledLog task known w m.1
        → AllDone tasks more m.1
        → AllDone (task ∷ tasks) (known, more) w
    unfolding work_tasks
    goes_on task known tasks more w (r, u) e done settled (s, rest, all) =
        let now = e ∙ ap (λ (r : Result (Unit {0})). (r, u)) done in
        (s, rw now rest, (u, (now, settled), all))

    module _ (records : Records B) where
      all_done :
          (tasks : List ClaimedTask) (known : AreKnown tasks) (w : World B) → AllDone tasks known w
      unfolding work_tasks
      all_done [] known w = (w, refl, refl)
      all_done (task ∷ tasks) ((registration, found, same), more) w =
          goes_on task (registration, found, same) tasks more w _ refl
            (execute_claimed_catching_done c.queue_name c.registry task cfg registration w records
              tt found same)
            (execute_claimed_catching_log c.queue_name c.registry task cfg registration w
              records.connects tt found same)
            (all_done tasks more _)

    -- A batch whose options are accepted claims tasks that are all registered for the client's queue,
    -- from a database that can be reached and takes every end of a run, or refuses it as a lost race.
    -- Then every task is executed, in order, also after tasks whose handlers fail or panic: what is
    -- recorded of a run is how that run ended. The batch ends with the number of the tasks.
    pub work_batch_goes_on :
        (t : ℕ) (tasks : List ClaimedTask) (known : AreKnown tasks) (w v : World B)
        → Records B
        → batch_claim_timeout_seconds o ≡ ok t
        → claim t w ≡ (ok tasks, v)
        → (s : World B) × (work_batch c o w ≡ (ok (length tasks), s)) × AllSettle tasks known v s
    unfolding work_batch
    work_batch_goes_on t tasks known w v records accepted claimed =
        let (s, worked, all) = all_done records tasks known v in
        (s, rw (accepted, claimed, worked) refl, all)
