-- ===== src/Types/Worker/BatchOptions.antt =====
-- The builder methods of `WorkBatchOptions` in src/types.rs.
use absurd_rust_sdk.Base.{ℕ, String, some}
use absurd_rust_sdk.Types.Duration.{Duration}
use absurd_rust_sdk.Types.Worker.{UnknownTaskPolicy, WorkBatchOptions, default_work_batch_options}

abbrev pub new : WorkBatchOptions
new = default_work_batch_options

abbrev pub worker_id : WorkBatchOptions → String → WorkBatchOptions
worker_id o value = record o { worker_id = some value }

abbrev pub claim_timeout : WorkBatchOptions → Duration → WorkBatchOptions
claim_timeout o value = record o { claim_timeout = value }

abbrev pub batch_size : WorkBatchOptions → ℕ → WorkBatchOptions
batch_size o value = record o { batch_size = value }

abbrev pub unknown_task_policy : WorkBatchOptions → UnknownTaskPolicy → WorkBatchOptions
unknown_task_policy o value = record o { unknown_task_policy = value }
