-- ===== src/Examples/HelloWorld.antt =====
-- examples/hello_world.rs: one task that is registered, spawned and worked off. What `println!` shows
-- is left out. serde's codecs of the two structs and of strings are parameters.
pub mod Ran
use absurd_rust_sdk.Base.{String, ◌<>◌, Option}
use absurd_rust_sdk.Error.{ForeignError, ok}
use absurd_rust_sdk.Types.Duration.{from_secs}
use absurd_rust_sdk.Types.Task.{default_spawn_options}
use absurd_rust_sdk.Types.Worker.{WorkBatchOptions}
use absurd_rust_sdk.Types.Worker.BatchOptions
use absurd_rust_sdk.Task
use absurd_rust_sdk.Task.{Task}
use absurd_rust_sdk.Backend.{Backend, Codec, World, Action, pure, lift, ◌>>=◌, ◌>>◌}
use absurd_rust_sdk.Context.Attempt.{Handler, finish, do_step, attempt}
use absurd_rust_sdk.Client.State.{Client}
use absurd_rust_sdk.Client.Connect.Ways.{from_env_queue}
use absurd_rust_sdk.Client.Queues.{create_queue}
use absurd_rust_sdk.Client.Typed.{register}
use absurd_rust_sdk.Client.Spawn.{spawn}
use absurd_rust_sdk.Client.Batch.{work_batch}

pub record HelloParams : Type 0 where
  pub name : String

pub record HelloResult : Type 0 where
  pub message : String

abbrev pub hello : Task HelloParams HelloResult
hello = Task.new "hello-world"

abbrev batch : WorkBatchOptions
batch = BatchOptions.claim_timeout BatchOptions.new (from_secs 30)

module _ {B : Backend} (string_codec : Codec String) where
  -- The closure that is registered.
  abbrev pub greet : HelloParams → Handler B HelloResult
  greet params =
      do_step String string_codec "build-greeting" (pure ("hello, " <> params.name))
        (λ greeting. finish (ok (record { message = greeting })))

  module _ (params_codec : Codec HelloParams) (result_codec : Codec HelloResult)
      (refuses : String → Option ForeignError) (env : String → Option String) where
    -- The client after the registration: its registry is shared.
    unfoldable pub registered : Client B → Action (World B) (Client B)
    unfolding register attempt
    registered c = do
      registry ←
          lift (register params_codec result_codec c hello (λ params. attempt (greet params)))
      pure (record c { registry = registry })

    unfoldable pub main : Action (World B) (Unit {0})
    unfolding from_env_queue registered work_batch
    main = do
      c ← from_env_queue refuses env "default"
      create_queue c
      client ← registered c
      spawned ←
          spawn params_codec client hello.options (record { name = "Absurd" }) default_spawn_options
      count ← work_batch client batch
      pure tt
