-- ===== src/Types/Queue/PolicyOptions.antt =====
-- The builder methods of `QueuePolicyOptions` in src/types.rs.
use absurd_rust_sdk.Base.{String, some}
use absurd_rust_sdk.Int.{ℤ}
use absurd_rust_sdk.Types.Queue.{QueueDetachMode, QueuePolicyOptions, default_queue_policy_options}

abbrev pub new : QueuePolicyOptions
new = default_queue_policy_options

abbrev pub partition_lookahead : QueuePolicyOptions → String → QueuePolicyOptions
partition_lookahead o value = record o { partition_lookahead = some value }

abbrev pub partition_lookback : QueuePolicyOptions → String → QueuePolicyOptions
partition_lookback o value = record o { partition_lookback = some value }

abbrev pub cleanup_ttl : QueuePolicyOptions → String → QueuePolicyOptions
cleanup_ttl o value = record o { cleanup_ttl = some value }

abbrev pub cleanup_limit : QueuePolicyOptions → ℤ → QueuePolicyOptions
cleanup_limit o value = record o { cleanup_limit = some value }

abbrev pub detach_mode : QueuePolicyOptions → QueueDetachMode → QueuePolicyOptions
detach_mode o value = record o { detach_mode = some value }

abbrev pub detach_min_age : QueuePolicyOptions → String → QueuePolicyOptions
detach_min_age o value = record o { detach_min_age = some value }
