-- ===== src/Worker/Close.antt =====
-- The worker, its tasks and its close in src/worker.rs put together.
use absurd_rust_sdk.Base.{
  ℕ, ◌≡◌, refl, sym, subst, String, List, [], ◌∷◌, All, inl, Bool-cases, inr, arith, some,
}
use absurd_rust_sdk.Error.{JoinError, PanicPayload, Result, ok}
use absurd_rust_sdk.Types.Task.{ClaimedTask}
use absurd_rust_sdk.Types.Worker.{NormalizedWorkerOptions, WorkerErrorHandler, Returns}
use absurd_rust_sdk.Backend.{Backend, World}
use absurd_rust_sdk.Hooks.{Hooks}
use absurd_rust_sdk.Client.State.{Registry}
use absurd_rust_sdk.Worker.{
  broken, Phase, draining, waiting_capacity, claiming, waiting_poll, closing, stopped, Input,
  joined, none_joined, close, changed, timer, claimed, claim_failed, State, start, dispatch,
  after_drain, join_one, report_task_result, on_change, worker_loop,
}
use absurd_rust_sdk.Worker.Shutdown.{EndsAlone}
use absurd_rust_sdk.Worker.Handle.{Worker, close_worker}
use absurd_rust_sdk.Worker.Tasks.{spawned_task, spawned_task-EndsAlone}

abbrev JoinsAlone : Input → Type 0
JoinsAlone (joined e) = EndsAlone e
JoinsAlone _ = Unit

-- A loop that has returned has returned no error.
abbrev NoFailure : Phase → Type 0
NoFailure (stopped r) = r ≡ ok tt
NoFailure _ = Unit

module _ (concurrency batch_size : ℕ) where
  dispatch-NoFailure :
      (p : Phase) (i : Input) (s : State)
      → JoinsAlone i
      → s.phase ≡ p
      → NoFailure p
      → NoFailure (dispatch concurrency batch_size p i s).phase
  unfolding dispatch after_drain join_one report_task_result on_change
  dispatch-NoFailure p (joined (broken j)) s alone e h = absurd alone
  dispatch-NoFailure draining i s alone e h = ground arith
  dispatch-NoFailure waiting_capacity i s alone e h = ground arith
  dispatch-NoFailure (claiming n) i s alone e h = ground arith
  dispatch-NoFailure waiting_poll i s alone e h = ground arith
  dispatch-NoFailure closing i s alone e h = ground arith
  dispatch-NoFailure (stopped r) i s alone e h = ground arith

  worker_loop-NoFailure :
      (is : List Input) (s : State)
      → All JoinsAlone is
      → NoFailure s.phase
      → NoFailure (worker_loop concurrency batch_size s is).phase
  unfolding worker_loop
  worker_loop-NoFailure [] s alone h = h
  worker_loop-NoFailure (i ∷ is) s alone h =
      worker_loop-NoFailure is (dispatch concurrency batch_size s.phase i s) alone.1
        (dispatch-NoFailure s.phase i s alone.0 refl h)

module _ {B : Backend} (join_error : PanicPayload → JoinError) (q : String) (registry : Registry B)
    (hooks : Hooks B) (options : NormalizedWorkerOptions WorkerErrorHandler)
    (returns : Returns (some options.on_error)) where
  -- A task that is joined is one that the worker has spawned, run in some world.
  abbrev pub JoinsSpawned : Input → Type 0
  JoinsSpawned (joined e) =
      (task : ClaimedTask) × (w : World B) × (e
        ≡ (spawned_task join_error q registry hooks options task w).0)
  JoinsSpawned _ = Unit

  spawned-JoinsAlone : (i : Input) → JoinsSpawned i → JoinsAlone i
  spawned-JoinsAlone (joined e) (task, w, same) =
      subst EndsAlone (sym same)
        (spawned_task-EndsAlone join_error q registry hooks options task w returns)
  spawned-JoinsAlone none_joined h = tt
  spawned-JoinsAlone close h = tt
  spawned-JoinsAlone (changed d) h = tt
  spawned-JoinsAlone timer h = tt
  spawned-JoinsAlone (claimed n) h = tt
  spawned-JoinsAlone (claim_failed e) h = tt

  All-JoinsAlone : (is : List Input) → All JoinsSpawned is → All JoinsAlone is
  All-JoinsAlone [] h = tt
  All-JoinsAlone (i ∷ is) h = (spawned-JoinsAlone i h.0, All-JoinsAlone is h.1)

  -- A worker whose error handler returns from every call never fails: when its loop has returned,
  -- whatever its awaits gave and whatever its tasks did, also where they panicked, closing it gives
  -- no error.
  pub close_worker_ok :
      (is : List Input) (r : Result (Unit {0})) (w : Worker)
      → All JoinsSpawned is
      → (worker_loop options.concurrency options.batch_size start is).phase ≡ stopped r
      → (close_worker w (inl r)).1 ≡ ok tt
  unfolding close_worker
  close_worker_ok is r w joins e =
      let returned = subst NoFailure e (
        worker_loop-NoFailure options.concurrency options.batch_size is start
          (All-JoinsAlone is joins) tt) in
      elim (Bool-cases w.has_handle) [ inl p ↦ rw p returned | inr p ↦ rw p refl ]
