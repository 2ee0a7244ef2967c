-- ===== src/Types/Queue/Serialized.antt =====
-- The `Serialize` of the queue options in src/types.rs, as their attributes describe it: a field is
-- left out where its `skip_serializing_if` holds.
use absurd_rust_sdk.Base.{if◌then◌else◌}
use absurd_rust_sdk.Json.{Json, Fields, object, string, put, put_some, end}
use absurd_rust_sdk.Types.Queue.{
  QueueStorageMode, storage_mode_as_str, is_default_queue_storage_mode, detach_mode_json, int_json,
  CreateQueueOptions,
}

abbrev pub storage_mode_json : QueueStorageMode → Json
storage_mode_json m = string (storage_mode_as_str m)

abbrev storage_mode_field : QueueStorageMode → Fields
storage_mode_field m =
    if is_default_queue_storage_mode m then end else put "storage_mode" (storage_mode_json m) end

unfoldable pub create_options_to_value : CreateQueueOptions → Json
create_options_to_value o = object (
    put_some "detach_min_age" o.detach_min_age string (
      put_some "detach_mode" o.detach_mode detach_mode_json (
        put_some "cleanup_limit" o.cleanup_limit int_json (
          put_some "cleanup_ttl" o.cleanup_ttl string (
            put_some "partition_lookback" o.partition_lookback string (
              put_some "partition_lookahead" o.partition_lookahead string
                (storage_mode_field o.storage_mode)))))))
