-- ===== src/Client/Connect/Ways.antt =====
-- The other ways to a client in src/client.rs: the default queue, the environment, with hooks.
use absurd_rust_sdk.Base.{String, Option, none}
use absurd_rust_sdk.Error.{ForeignError, Result, ok}
use absurd_rust_sdk.Error
use absurd_rust_sdk.Backend.{Backend, World, Action, pure, ◌>>=◌}
use absurd_rust_sdk.Hooks.{Hooks}
use absurd_rust_sdk.Client.State.{Client, from_pool, with_hooks}
use absurd_rust_sdk.Client.Connect.{
  resolve_database_url_with, connect_queue, connect_queue_with_hooks,
}

unfoldable pub from_pool_with_hooks : {B : Backend} → String → Hooks B → Result (Client B)
unfolding from_pool
from_pool_with_hooks queue_name hooks =
    Error.◌>>=◌ (from_pool queue_name) λ c. ok (with_hooks c hooks)

unfoldable pub resolve_database_url : Option String → (String → Option String) → String
unfolding resolve_database_url_with
resolve_database_url explicit env = resolve_database_url_with explicit env

-- `refuses` is what `create_pool` makes of a URL.
module _ {B : Backend} (refuses : String → Option ForeignError) where
  unfoldable pub connect : String → Action (World B) (Client B)
  unfolding connect_queue
  connect database_url = connect_queue refuses database_url "default"

  unfoldable pub connect_with_hooks : String → Hooks B → Action (World B) (Client B)
  unfolding connect
  connect_with_hooks database_url hooks = do c ← connect database_url; pure (with_hooks c hooks)

  -- `env` is `std::env::var`.
  module _ (env : String → Option String) where
    unfoldable pub from_env : Action (World B) (Client B)
    unfolding connect resolve_database_url
    from_env = connect (resolve_database_url none env)

    unfoldable pub from_env_with_hooks : Hooks B → Action (World B) (Client B)
    unfolding connect_with_hooks resolve_database_url
    from_env_with_hooks hooks = connect_with_hooks (resolve_database_url none env) hooks

    unfoldable pub from_env_queue : String → Action (World B) (Client B)
    unfolding connect_queue resolve_database_url
    from_env_queue queue_name = connect_queue refuses (resolve_database_url none env) queue_name

    unfoldable pub from_env_queue_with_hooks : String → Hooks B → Action (World B) (Client B)
    unfolding connect_queue_with_hooks resolve_database_url
    from_env_queue_with_hooks queue_name hooks =
        connect_queue_with_hooks refuses (resolve_database_url none env) queue_name hooks
