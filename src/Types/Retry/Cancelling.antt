-- ===== src/Types/Retry/Cancelling.antt =====
-- The builder methods of `CancellationPolicy` in src/types.rs.
use absurd_rust_sdk.Base.{some}
use absurd_rust_sdk.Types.Duration.{Duration}
use absurd_rust_sdk.Types.Retry.{CancellationPolicy, default_cancellation_policy}

abbrev pub new : CancellationPolicy
new = default_cancellation_policy

abbrev pub max_duration : CancellationPolicy → Duration → CancellationPolicy
max_duration o value = record o { max_duration = some value }

abbrev pub max_delay : CancellationPolicy → Duration → CancellationPolicy
max_delay o value = record o { max_delay = some value }
