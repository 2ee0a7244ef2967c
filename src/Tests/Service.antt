-- ===== src/Tests/Service.antt =====
-- Witnesses for the worker as a service and for the tasks that it spawns.
use absurd_rust_sdk.Base.{◌≡◌, refl, inl, String, true, false, none, some, List, [], ◌∷◌}
use absurd_rust_sdk.Error.{JoinError, PanicPayload, ok, panic, static_str}
use absurd_rust_sdk.Json.{Json}
use absurd_rust_sdk.Types.Worker.{
  WorkerErrorHandler, NormalizedWorkerOptions, defer, default_worker_id,
}
use absurd_rust_sdk.Backend.{lift}
use absurd_rust_sdk.Hooks.{TaskExecution, default_hooks}
use absurd_rust_sdk.Client.State.{Registry}
use absurd_rust_sdk.Worker.{
  draining, succeeded, joined, none_joined, close, claimed, Input, worker_loop,
}
use absurd_rust_sdk.Worker.Handle.{Worker, close_worker}
use absurd_rust_sdk.Worker.Close.{close_worker_ok}
use absurd_rust_sdk.Worker.Tasks.{spawned_task}
use absurd_rust_sdk.Tests.Fixtures.{calm, calm_world, test_task}

-- A handler that panics.
abbrev crash : Json → TaskExecution calm
crash params = lift (panic (static_str "boom"))

abbrev crash_registry : Registry calm
crash_registry = record {
  entries =
      (
        "mail",
        record {
          queue_name = "main";
          default_max_attempts = none;
          default_cancellation = none;
          handler = crash;
        },
      )
      ∷ [];
  poisoned = false;
}

abbrev join_error : PanicPayload → JoinError
join_error p = record { payload = some p; shown = "panicked"; debugged = "Panic" }

abbrev quiet : WorkerErrorHandler
quiet e = none

-- What a worker with the default options runs with.
abbrev options : NormalizedWorkerOptions WorkerErrorHandler
options = record {
  worker_id = "me";
  claim_timeout = 120_000_000_000;
  claim_timeout_seconds = 120;
  concurrency = 1;
  batch_size = 1;
  poll_interval = 250_000_000;
  unknown_task_policy = defer;
  on_error = quiet;
  fatal_on_lease_timeout = true;
}

abbrev one_claimed : List Input
one_claimed = none_joined ∷ claimed 1 ∷ close ∷ joined succeeded ∷ none_joined ∷ none_joined ∷ []

abbrev first_inputs : List Input
first_inputs = none_joined ∷ claimed 1 ∷ close ∷ []

abbrev last_inputs : List Input
last_inputs = joined succeeded ∷ none_joined ∷ none_joined ∷ []

abbrev handle : Worker
handle = record { told_to_stop = false; has_handle = true }

close_worker_ok_example : (close_worker handle (inl (ok tt))).1 ≡ ok tt
unfolding spawned_task absurd_rust_sdk.Base.lookup absurd_rust_sdk.Backend.call worker_loop
close_worker_ok_example =
    close_worker_ok join_error "main" crash_registry default_hooks options (λ e. refl) one_claimed
      (ok tt) handle (tt, (tt, (tt, ((test_task, calm_world, refl), (tt, (tt, tt)))))) refl
