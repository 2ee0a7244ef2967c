-- ===== src/Context/Wait/Options.antt =====
-- The builder methods of `AwaitTaskResultOptions` in src/task_result.rs.
use absurd_rust_sdk.Base.{String, some}
use absurd_rust_sdk.Types.Duration.{Duration}
use absurd_rust_sdk.Context.Wait.{AwaitTaskResultOptions, default_await_task_result_options}

abbrev pub new : AwaitTaskResultOptions
new = default_await_task_result_options

abbrev pub queue : AwaitTaskResultOptions → String → AwaitTaskResultOptions
queue o value = record o { queue = some value }

abbrev pub timeout : AwaitTaskResultOptions → Duration → AwaitTaskResultOptions
timeout o value = record o { timeout = some value }

abbrev pub step_name : AwaitTaskResultOptions → String → AwaitTaskResultOptions
step_name o value = record o { step_name = some value }
