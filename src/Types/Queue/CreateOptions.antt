-- ===== src/Types/Queue/CreateOptions.antt =====
-- The builder methods of `CreateQueueOptions` in src/types.rs.
use absurd_rust_sdk.Base.{String, some}
use absurd_rust_sdk.Int.{ℤ}
use absurd_rust_sdk.Types.Queue.{
  QueueStorageMode, QueueDetachMode, CreateQueueOptions, default_create_queue_options,
}

abbrev pub new : CreateQueueOptions
new = default_create_queue_options

abbrev pub storage_mode : CreateQueueOptions → QueueStorageMode → CreateQueueOptions
storage_mode o value = record o { storage_mode = value }

abbrev pub partition_lookahead : CreateQueueOptions → String → CreateQueueOptions
partition_lookahead o value = record o { partition_lookahead = some value }

abbrev pub partition_lookback : CreateQueueOptions → String → CreateQueueOptions
partition_lookback o value = record o { partition_lookback = some value }

abbrev pub cleanup_ttl : CreateQueueOptions → String → CreateQueueOptions
cleanup_ttl o value = record o { cleanup_ttl = some value }

abbrev pub cleanup_limit : CreateQueueOptions → ℤ → CreateQueueOptions
cleanup_limit o value = record o { cleanup_limit = some value }

abbrev pub detach_mode : CreateQueueOptions → QueueDetachMode → CreateQueueOptions
detach_mode o value = record o { detach_mode = some value }

abbrev pub detach_min_age : CreateQueueOptions → String → CreateQueueOptions
detach_min_age o value = record o { detach_min_age = some value }
