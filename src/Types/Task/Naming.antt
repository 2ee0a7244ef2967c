-- ===== src/Types/Task/Naming.antt =====
-- The builder methods of `TaskOptions` in src/types.rs.
use absurd_rust_sdk.Base.{String, some}
use absurd_rust_sdk.Int.{ℤ}
use absurd_rust_sdk.Types.Retry.{CancellationPolicy}
use absurd_rust_sdk.Types.Task.{TaskOptions}

abbrev pub queue : TaskOptions → String → TaskOptions
queue o value = record o { queue = some value }

abbrev pub default_max_attempts : TaskOptions → ℤ → TaskOptions
default_max_attempts o value = record o { default_max_attempts = some value }

abbrev pub default_cancellation : TaskOptions → CancellationPolicy → TaskOptions
default_cancellation o value = record o { default_cancellation = some value }
