-- ===== src/Types/Task/Retrying.antt =====
-- The builder methods of `RetryTaskOptions` in src/types.rs.
use absurd_rust_sdk.Base.{String, some, none, true, false}
use absurd_rust_sdk.Int.{ℤ}
use absurd_rust_sdk.Types.Task.{RetryTaskOptions}

abbrev pub new : RetryTaskOptions
new = record { queue = none; max_attempts = none; spawn_new = false }

abbrev pub queue : RetryTaskOptions → String → RetryTaskOptions
queue o value = record o { queue = some value }

abbrev pub max_attempts : RetryTaskOptions → ℤ → RetryTaskOptions
max_attempts o value = record o { max_attempts = some value }

abbrev pub spawn_new : RetryTaskOptions → RetryTaskOptions
spawn_new o = record o { spawn_new = true }

abbrev pub spawn_new_task : RetryTaskOptions → RetryTaskOptions
spawn_new_task o = spawn_new o
