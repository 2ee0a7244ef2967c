-- ===== src/Types/Worker/Options.antt =====
-- The builder methods of `WorkerOptions` in src/types.rs.
use absurd_rust_sdk.Base.{ℕ, String, Bool, some}
use absurd_rust_sdk.Types.Duration.{Duration}
use absurd_rust_sdk.Types.Worker.{UnknownTaskPolicy, WorkerOptions, default_worker_options}

module _ {H : Type 0} where
  abbrev pub new : WorkerOptions H
  new = default_worker_options

  abbrev pub worker_id : WorkerOptions H → String → WorkerOptions H
  worker_id o value = record o { worker_id = some value }

  abbrev pub claim_timeout : WorkerOptions H → Duration → WorkerOptions H
  claim_timeout o value = record o { claim_timeout = value }

  abbrev pub concurrency : WorkerOptions H → ℕ → WorkerOptions H
  concurrency o value = record o { concurrency = value }

  abbrev pub batch_size : WorkerOptions H → ℕ → WorkerOptions H
  batch_size o value = record o { batch_size = some value }

  abbrev pub poll_interval : WorkerOptions H → Duration → WorkerOptions H
  poll_interval o value = record o { poll_interval = value }

  abbrev pub unknown_task_policy : WorkerOptions H → UnknownTaskPolicy → WorkerOptions H
  unknown_task_policy o value = record o { unknown_task_policy = value }

  abbrev pub on_error : WorkerOptions H → H → WorkerOptions H
  on_error o value = record o { on_error = some value }

  abbrev pub fatal_on_lease_timeout : WorkerOptions H → Bool → WorkerOptions H
  fatal_on_lease_timeout o value = record o { fatal_on_lease_timeout = value }
