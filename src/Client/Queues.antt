-- ===== src/Client/Queues.antt =====
-- Queues in src/client.rs: creating, listing and dropping them, and their policies.
pub mod Refusals
use absurd_rust_sdk.Base.{ℕ, String, Bool, Option, none, some, List, if◌then◌else◌}
use absurd_rust_sdk.Error.{Result, ok, err}
use absurd_rust_sdk.Error
use absurd_rust_sdk.Types.Queue.{
  QueueStorageMode, unpartitioned, partitioned, QueuePolicyOptions, CreateQueueOptions, QueuePolicy,
  validate_queue_name, storage_mode_as_str, parse_storage_mode, parse_detach_mode, policy_is_empty,
  policy_to_sql_json, policy_options,
}
use absurd_rust_sdk.Backend.{
  Backend, World, Action, PolicyRow, get_connection, send, call, pure, lift, ◌>>=◌, ◌>>◌,
  create_queue as create_queue_call, set_queue_policy as set_queue_policy_call,
  get_queue_policy as get_queue_policy_call, drop_queue as drop_queue_call,
  list_queues as list_queues_call,
}
use absurd_rust_sdk.Client.State.{Client}

-- The storage mode is passed on only where it is not the default.
abbrev mode_argument : QueueStorageMode → Option String
mode_argument unpartitioned = none
mode_argument partitioned = some (storage_mode_as_str partitioned)

unfoldable pub read_policy_row : PolicyRow → Result QueuePolicy
unfolding parse_storage_mode parse_detach_mode
read_policy_row row = Error.◌>>=◌ (parse_storage_mode row.storage_mode) λ storage_mode.
    Error.◌>>=◌ (parse_detach_mode row.detach_mode) λ detach_mode. ok (record {
      queue_name = row.queue_name;
      storage_mode = storage_mode;
      partition_lookahead = row.partition_lookahead;
      partition_lookback = row.partition_lookback;
      cleanup_ttl = row.cleanup_ttl;
      cleanup_limit = row.cleanup_limit;
      detach_mode = detach_mode;
      detach_min_age = row.detach_min_age;
    })

-- `row.map(…).transpose()`
abbrev read_policy : Option PolicyRow → Result (Option QueuePolicy)
read_policy none = ok none
read_policy (some row) = Error.◌>>=◌ (read_policy_row row) λ p. ok (some p)

module _ {B : Backend} where
  unfoldable pub create_queue_in : String → Action (World B) (Unit {0})
  unfolding validate_queue_name
  create_queue_in queue_name = do
    lift (validate_queue_name queue_name)
    call (create_queue_call queue_name none)

  abbrev send_policy : String → QueuePolicyOptions → Action (World B) (Unit {0})
  send_policy queue_name options =
      if policy_is_empty options
      then pure tt
      else call (set_queue_policy_call queue_name (policy_to_sql_json options))

  unfoldable pub set_queue_policy_in : String → QueuePolicyOptions → Action (World B) (Unit {0})
  unfolding validate_queue_name policy_is_empty policy_to_sql_json
  set_queue_policy_in queue_name options = do
    lift (validate_queue_name queue_name)
    send_policy queue_name options

  -- The first connection is still held when the policy takes a second one from the pool.
  unfoldable pub create_queue_in_with_options :
      String → CreateQueueOptions → Action (World B) (Unit {0})
  unfolding validate_queue_name set_queue_policy_in policy_options storage_mode_as_str
  create_queue_in_with_options queue_name options = do
    lift (validate_queue_name queue_name)
    get_connection
    send (create_queue_call queue_name (mode_argument options.storage_mode))
    set_queue_policy_in queue_name (policy_options options)

  unfoldable pub get_queue_policy_in : String → Action (World B) (Option QueuePolicy)
  unfolding validate_queue_name read_policy_row
  get_queue_policy_in queue_name = do
    lift (validate_queue_name queue_name)
    row ← call (get_queue_policy_call queue_name)
    lift (read_policy row)

  unfoldable pub drop_queue_in : String → Action (World B) (Unit {0})
  unfolding validate_queue_name
  drop_queue_in queue_name = do
    lift (validate_queue_name queue_name)
    call (drop_queue_call queue_name)

  unfoldable pub list_queues : Action (World B) (List String)
  list_queues = call list_queues_call

  -- The methods without a queue's name use the client's.
  abbrev pub create_queue : Client B → Action (World B) (Unit {0})
  create_queue c = create_queue_in c.queue_name

  abbrev pub create_queue_with_options : Client B → CreateQueueOptions → Action (World B) (Unit {0})
  create_queue_with_options c options = create_queue_in_with_options c.queue_name options

  abbrev pub set_queue_policy : Client B → QueuePolicyOptions → Action (World B) (Unit {0})
  set_queue_policy c options = set_queue_policy_in c.queue_name options

  abbrev pub get_queue_policy : Client B → Action (World B) (Option QueuePolicy)
  get_queue_policy c = get_queue_policy_in c.queue_name

  abbrev pub drop_queue : Client B → Action (World B) (Unit {0})
  drop_queue c = drop_queue_in c.queue_name
