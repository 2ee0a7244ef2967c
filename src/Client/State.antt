-- ===== src/Client/State.antt =====
-- The state of a `Client` in src/client.rs.
use absurd_rust_sdk.Base.{String, Bool, false, Option, [], Map, lookup, if◌then◌else◌}
use absurd_rust_sdk.Error.{Result, ok, err, config, ◌>>◌}
use absurd_rust_sdk.Int.{ℤ, pos}
use absurd_rust_sdk.Json.{Json}
use absurd_rust_sdk.Types.Queue.{validate_queue_name}
use absurd_rust_sdk.Types.Retry.{CancellationPolicy}
use absurd_rust_sdk.Backend.{Backend}
use absurd_rust_sdk.Hooks.{Hooks, TaskExecution, default_hooks}

module _ (B : Backend) where
  pub record RegisteredTask : Type 0 where
    pub queue_name : String
    pub default_max_attempts : Option ℤ
    pub default_cancellation : Option CancellationPolicy
    pub handler : Json → TaskExecution B

  -- `Arc<RwLock<HashMap<String, RegisteredTask>>>`, shared by the clones of a client and by its
  -- workers. The lock is poisoned once a thread has panicked while it was writing.
  pub record Registry : Type 0 where
    pub entries : Map RegisteredTask
    pub poisoned : Bool

  pub record Client : Type 0 where
    pub queue_name : String
    pub default_max_attempts : ℤ
    pub hooks : Hooks B
    pub registry : Registry

abbrev pub new_client : {B : Backend} → String → Client B
new_client queue_name = record {
  queue_name = queue_name;
  default_max_attempts = pos 5;
  hooks = default_hooks;
  registry = record { entries = []; poisoned = false };
}

-- `Client::from_pool`; the pool is the backend's.
unfoldable pub from_pool : {B : Backend} → String → Result (Client B)
unfolding validate_queue_name
from_pool queue_name = validate_queue_name queue_name >> ok (new_client queue_name)

-- `Client::with_hooks`, `Client::default_max_attempts`
abbrev pub with_hooks : {B : Backend} → Client B → Hooks B → Client B
with_hooks c hooks = record c { hooks = hooks }

abbrev pub with_default_max_attempts : {B : Backend} → Client B → ℤ → Client B
with_default_max_attempts c value = record c { default_max_attempts = value }

-- `Client::get_registration`, and the executor's reading of the registry.
unfoldable pub get_registration :
    {B : Backend} → Registry B → String → Result (Option (RegisteredTask B))
get_registration registry task_name =
    if registry.poisoned
    then err (config "task registry lock poisoned")
    else ok (lookup task_name registry.entries)
