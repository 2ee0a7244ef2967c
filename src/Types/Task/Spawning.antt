-- ===== src/Types/Task/Spawning.antt =====
-- The builder methods of `SpawnOptions` in src/types.rs.
use absurd_rust_sdk.Base.{String, some}
use absurd_rust_sdk.Int.{ℤ}
use absurd_rust_sdk.Json.{Fields}
use absurd_rust_sdk.Types.Retry.{RetryStrategy, CancellationPolicy}
use absurd_rust_sdk.Types.Task.{SpawnOptions, default_spawn_options}

abbrev pub new : SpawnOptions
new = default_spawn_options

abbrev pub queue : SpawnOptions → String → SpawnOptions
queue o value = record o { queue = some value }

abbrev pub max_attempts : SpawnOptions → ℤ → SpawnOptions
max_attempts o value = record o { max_attempts = some value }

abbrev pub retry_strategy : SpawnOptions → RetryStrategy → SpawnOptions
retry_strategy o value = record o { retry_strategy = some value }

abbrev pub headers : SpawnOptions → Fields → SpawnOptions
headers o value = record o { headers = some value }

abbrev pub cancellation : SpawnOptions → CancellationPolicy → SpawnOptions
cancellation o value = record o { cancellation = some value }

abbrev pub idempotency_key : SpawnOptions → String → SpawnOptions
idempotency_key o value = record o { idempotency_key = some value }
