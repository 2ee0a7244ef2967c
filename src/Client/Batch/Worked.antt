-- ===== src/Client/Batch/Worked.antt =====
-- What a batch has done when it ends.
use absurd_rust_sdk.Base.{
  ℕ, ◌≤◌, max, min, ◌≡◌, refl, sym, ap, ◌∙◌, List, [], ◌∷◌, ◌++◌, length, arith,
}
use absurd_rust_sdk.Error.{Result, ok, err, panic, ok_injective}
use absurd_rust_sdk.Types.Duration.{i32_max}
use absurd_rust_sdk.Types.Task.{ClaimedTask}
use absurd_rust_sdk.Types.Worker.{WorkBatchOptions, worker_id_value, batch_claim_timeout_seconds}
use absurd_rust_sdk.Backend.{Backend, World, Action, continue, pure, lift, ◌>>=◌, ◌>>◌, went_on}
use absurd_rust_sdk.Client.State.{Client}
use absurd_rust_sdk.Client.Batch.{claim_tasks, batch_config, work_tasks, work_batch}
use absurd_rust_sdk.Executor.Execute.{TaskExecutionConfig, execute_claimed_catching}

-- An outcome that is not a success.
abbrev pub IsFailure : {A : Type 0} → Result A → Type 0
IsFailure (ok a) = ⊥
IsFailure (err e) = Unit
IsFailure (panic p) = Unit

module _ {B : Backend} (c : Client B) (cfg : TaskExecutionConfig B) where
  abbrev execute : ClaimedTask → Action (World B) (Unit {0})
  execute task = execute_claimed_catching c.queue_name c.registry task cfg

  -- Tasks executed one after the other, each with success.
  abbrev pub Worked : List ClaimedTask → World B → World B → Type 0
  Worked [] w s = w ≡ s
  Worked (task ∷ tasks) w s = (u : World B) × (execute task w ≡ (ok tt, u)) × Worked tasks u s

  -- How the tasks after the executed ones end: there is none, or the first of them fails.
  abbrev pub EndsWith : List ClaimedTask → Result (Unit {0}) → World B → World B → Type 0
  EndsWith [] r u s = (r ≡ ok tt) × (u ≡ s)
  EndsWith (task ∷ rest) r u s = IsFailure r × (execute task u ≡ (r, s))

  -- The tasks of a batch in two: the first are executed with success, in order. There are no others
  -- or the next one fails, its failure is the batch's, and no task after it is executed.
  pub record Stopped (tasks : List ClaimedTask) (r : Result (Unit {0})) (w s : World B)
      : Type 0 where
    pub executed : List ClaimedTask
    pub rest : List ClaimedTask
    pub between : World B
    pub parts : tasks ≡ executed ++ rest
    pub worked : Worked executed w between
    pub ends : EndsWith rest r between s

  after_task :
      (task : ClaimedTask) (tasks : List ClaimedTask) (w : World B)
      (m : Result (Unit {0}) × World B)
      → execute task w ≡ m
      → ((u : World B) → Stopped tasks (work_tasks c cfg tasks u).0 u (work_tasks c cfg tasks u).1)
      → Stopped
          (task ∷ tasks)
          (continue m.0 (λ _. work_tasks c cfg tasks) m.1).0
          w
          (continue m.0 (λ _. work_tasks c cfg tasks) m.1).1
  after_task task tasks w (ok x, u) e more =
      let later = more u in
      record {
        executed = task ∷ later.executed;
        rest = later.rest;
        between = later.between;
        parts = ap (λ (ts : List ClaimedTask). task ∷ ts) later.parts;
        worked = (u, e, later.worked);
        ends = later.ends;
      }
  after_task task tasks w (err x, u) e more = record {
    executed = [];
    rest = task ∷ tasks;
    between = w;
    parts = refl;
    worked = refl;
    ends = (tt, e);
  }
  after_task task tasks w (panic x, u) e more = record {
    executed = [];
    rest = task ∷ tasks;
    between = w;
    parts = refl;
    worked = refl;
    ends = (tt, e);
  }

  -- The tasks of a batch are executed in order until an execution gives an error or panics. Then that
  -- is the result, and no task after it is executed; without one, all are executed.
  pub work_tasks-Stopped :
      (tasks : List ClaimedTask) (w : World B)
      → Stopped tasks (work_tasks c cfg tasks w).0 w (work_tasks c cfg tasks w).1
  unfolding work_tasks
  work_tasks-Stopped [] w = record {
    executed = [];
    rest = [];
    between = w;
    parts = refl;
    worked = refl;
    ends = (refl, refl);
  }
  work_tasks-Stopped (task ∷ tasks) w =
      after_task task tasks w (execute task w) refl (work_tasks-Stopped tasks)

module _ {B : Backend} (c : Client B) (cfg : TaskExecutionConfig B) where
  work_tasks-Worked :
      (tasks : List ClaimedTask) (w s : World B)
      → work_tasks c cfg tasks w ≡ (ok tt, s)
      → Worked c cfg tasks w s
  unfolding work_tasks
  work_tasks-Worked [] w s e = ap (λ (m : Result (Unit {0}) × World B). m.1) e
  work_tasks-Worked (task ∷ tasks) w s e =
      let (x, u, now, later) =
        went_on (execute_claimed_catching c.queue_name c.registry task cfg w)
          (λ _. work_tasks c cfg tasks) tt s e in
      (u, now, work_tasks-Worked tasks u s later)

claim_size_bounds : (n : ℕ) → (1 ≤ min (max n 1) i32_max) × (min (max n 1) i32_max ≤ i32_max)
claim_size_bounds n = ground arith

module _ {B : Backend} (c : Client B) (o : WorkBatchOptions) where
  abbrev claim_size : ℕ
  claim_size = min (max o.batch_size 1) i32_max

  -- How a batch is worked off.
  pub record Batch (n : ℕ) (w s : World B) : Type 0 where
    pub claim_timeout : ℕ
    pub tasks : List ClaimedTask
    pub claimed : World B
    pub accepted : batch_claim_timeout_seconds o ≡ ok claim_timeout
    pub size_bounds : (1 ≤ claim_size) × (claim_size ≤ i32_max)
    pub by_claim :
        claim_tasks c.queue_name (worker_id_value o) claim_timeout claim_size w
        ≡ (ok tasks, claimed)
    pub worked : Worked c (batch_config c o) tasks claimed s
    pub counted : n ≡ length tasks

  -- A batch that ends with a count has claimed its tasks with one claim, whose size is from 1 to the
  -- largest `i32`, has executed each of them, in order and without an error, and counts them.
  pub work_batch-Batch : (n : ℕ) (w s : World B) → work_batch c o w ≡ (ok n, s) → Batch n w s
  unfolding work_batch claim_tasks
  work_batch-Batch n w s e =
      let after = λ (tasks : List ClaimedTask).
        work_tasks c (batch_config c o) tasks >> pure (length tasks) in
      let (t, u, accepted, rest) =
        went_on (lift {S = World B} (batch_claim_timeout_seconds o) w)
          (λ t. claim_tasks c.queue_name (worker_id_value o) t claim_size >>= after) n s e in
      let (tasks, v, claimed, rest') =
        went_on (claim_tasks c.queue_name (worker_id_value o) t claim_size u) after n s rest in
      let (x, v', worked, last) =
        went_on (work_tasks c (batch_config c o) tasks v) (λ _. pure (length tasks)) n s rest' in
      record {
        claim_timeout = t;
        tasks = tasks;
        claimed = v;
        accepted = ap (λ (m : Result ℕ × World B). m.0) accepted;
        size_bounds = claim_size_bounds o.batch_size;
        by_claim =
            ap (claim_tasks c.queue_name (worker_id_value o) t claim_size)
              (ap (λ (m : Result ℕ × World B). m.1) accepted)
            ∙ claimed;
        worked =
            work_tasks-Worked c (batch_config c o) tasks v s
              (worked ∙ ap (λ (m : Result ℕ × World B). (ok tt, m.1)) last);
        counted = sym (ok_injective (ap (λ (m : Result ℕ × World B). m.0) last));
      }
