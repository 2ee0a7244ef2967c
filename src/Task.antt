-- ===== src/Task.antt =====
-- src/task.rs: a task's options with the types of its parameters and its result.
use absurd_rust_sdk.Base.{String, some}
use absurd_rust_sdk.Int.{ℤ}
use absurd_rust_sdk.Types.Retry.{CancellationPolicy}
use absurd_rust_sdk.Types.Task.{TaskOptions, new_task_options}

-- `P` and `R` stand in the type alone.
pub record Task (P R : Type 0) : Type 0 where
  pub options : TaskOptions

module _ {P R : Type 0} where
  abbrev pub with_options : TaskOptions → Task P R
  with_options options = record { options = options }

  abbrev pub new : String → Task P R
  new name = with_options (new_task_options name)

  abbrev pub name : Task P R → String
  name task = task.options.name

  abbrev pub queue : Task P R → String → Task P R
  queue task value = record task { options = record (task.options) { queue = some value } }

  abbrev pub default_max_attempts : Task P R → ℤ → Task P R
  default_max_attempts task value = record task {
    options = record (task.options) { default_max_attempts = some value };
  }

  abbrev pub default_cancellation : Task P R → CancellationPolicy → Task P R
  default_cancellation task value = record task {
    options = record (task.options) { default_cancellation = some value };
  }
