-- ===== src/Examples/HelloWorld/Ran.antt =====
-- What examples/hello_world.rs has done when it ends.
use absurd_rust_sdk.Base.{◌≡◌, subst, sym, ap, ◌∙◌, ℕ, String, Option, some, none, arith}
use absurd_rust_sdk.Error.{ForeignError, Result, ok, err, panic, ok_injective}
use absurd_rust_sdk.Error
use absurd_rust_sdk.Json.{Json}
use absurd_rust_sdk.Hooks.{TaskExecution}
use absurd_rust_sdk.Types.Task.{SpawnResult, default_spawn_options}
use absurd_rust_sdk.Types.Queue.{validate_queue_name}
use absurd_rust_sdk.Backend.{Backend, Codec, World, lift, get_connection, went_on}
use absurd_rust_sdk.Context.Attempt.{attempt}
use absurd_rust_sdk.Client.State.{Registry, Client, new_client, from_pool, get_registration}
use absurd_rust_sdk.Client.Connect.{connect_queue, create_pool}
use absurd_rust_sdk.Client.Connect.Ways.{from_env_queue, resolve_database_url}
use absurd_rust_sdk.Client.Erase.{erase}
use absurd_rust_sdk.Client.Queues.{create_queue}
use absurd_rust_sdk.Client.Register.Once.{registered_as, register_with_options_lem}
use absurd_rust_sdk.Client.Typed.{register}
use absurd_rust_sdk.Client.Spawn.{spawn}
use absurd_rust_sdk.Client.Spawn.Calls.{Spawned, spawn_resolved-Spawned}
use absurd_rust_sdk.Client.Batch.{work_batch}
use absurd_rust_sdk.Client.Batch.Worked.{Batch, work_batch-Batch}
use absurd_rust_sdk.Examples.HelloWorld.{
  HelloParams, HelloResult, hello, greet, batch, registered, main,
}

new_only : {A : Type 0} {a c : A} (x : Result (Unit {0})) → Error.◌>>◌ x (ok a) ≡ ok c → c ≡ a
new_only (ok x) e = sym (ok_injective e)
new_only (err x) e = ground arith
new_only (panic x) e = ground arith

module _ {B : Backend} (refuses : String → Option ForeignError) where
  connect_queue_client :
      (url q : String) (c : Client B) (w s : World B)
      → connect_queue refuses url q w ≡ (ok c, s)
      → c ≡ new_client q
  unfolding connect_queue from_pool
  connect_queue_client url q c w s e =
      let (t, u, now, rest) = went_on (lift {S = World B} (validate_queue_name q) w) _ c s e in
      let (t', u', now', rest') =
        went_on (lift {S = World B} (create_pool (refuses url)) u) _ c s rest in
      let (t'', v, now'', last) = went_on (get_connection u') _ c s rest' in
      new_only (validate_queue_name q) (ap (λ (m : Result (Client B) × World B). m.0) last)

module _ {B : Backend} (string_codec : Codec String) (params_codec : Codec HelloParams)
    (result_codec : Codec HelloResult) where
  abbrev handler : Json → TaskExecution B
  handler = erase params_codec result_codec (λ params. attempt (greet string_codec params))

  -- What the program has done: its client, with the task registered, has spawned the task and worked
  -- off a batch.
  pub record Ran (s : World B) : Type 0 where
    pub client : Client B
    pub before : World B
    pub after : World B
    pub count : ℕ
    pub queue : client.queue_name ≡ "default"
    pub known :
        get_registration client.registry "hello-world"
        ≡ ok (some (registered_as (new_client "default") hello.options handler))
    pub spawned :
        Spawned params_codec client "hello-world"
          (some hello.options)
          (record { name = "Absurd" })
          default_spawn_options
          before
          after
    pub worked : Batch client batch count after s

  module _ (refuses : String → Option ForeignError) (env : String → Option String) where
    registered_known :
        (c client : Client B) (w s : World B)
        → registered string_codec params_codec result_codec refuses env c w ≡ (ok client, s)
        → (g : Registry B) × (client ≡ record c { registry = g })
          × (get_registration g "hello-world" ≡ ok (some (registered_as c hello.options handler)))
    unfolding registered register
    registered_known c client w s e =
        let (g, u, entered, made) =
          went_on
            (lift
              (register params_codec result_codec c hello
                (λ params. attempt (greet string_codec params)))
              w)
            _ client s e in
        let (named, attempts, queue, free, there) =
          register_with_options_lem c hello.options handler g
            (ap (λ (m : Result (Registry B) × World B). m.0) entered) in
        (
          g,
          sym (ok_injective (ap (λ (m : Result (Client B) × World B). m.0) made)),
          there "hello-world",
        )

    ran :
        (c client : Client B) (g : Registry B) (res : SpawnResult) (count : ℕ) (w u v s : World B)
        → c ≡ new_client "default"
        → client ≡ record c { registry = g }
        → get_registration g "hello-world" ≡ ok (some (registered_as c hello.options handler))
        → spawn params_codec client hello.options
            (record { name = "Absurd" })
            default_spawn_options
            w
          ≡ (ok res, u)
        → work_batch client batch u ≡ (ok count, v)
        → v ≡ s
        → Ran s
    ran c client g res count w u v s same shared known spawned worked end = record {
      client = client;
      before = w;
      after = u;
      count = count;
      queue = ap (λ (c : Client B). c.queue_name) shared ∙ ap (λ (c : Client B). c.queue_name) same;
      known =
          ap (λ (c : Client B). get_registration c.registry "hello-world") shared
          ∙ known
          ∙ ap (λ (c : Client B). ok (some (registered_as c hello.options handler))) same;
      spawned =
          spawn_resolved-Spawned params_codec client "hello-world" (some hello.options)
            (record { name = "Absurd" }) default_spawn_options w u res spawned;
      worked =
          subst (λ (s : World B). Batch client batch count u s) end
            (work_batch-Batch client batch count u v worked);
    }

    -- When hello_world ends without an error, it has registered its task for the queue "default", has
    -- then spawned it with a single call, and has last worked off one batch of that queue, executing
    -- each task of it without an error.
    pub main-Ran :
        (w s : World B)
        → main string_codec params_codec result_codec refuses env w ≡ (ok tt, s)
        → Ran s
    unfolding main from_env_queue
    main-Ran w s e =
        let url = resolve_database_url none env in
        let (c, w1, connected, rest1) = went_on (connect_queue refuses url "default" w) _ tt s e in
        let (t, w2, created, rest2) = went_on (create_queue c w1) _ tt s rest1 in
        let (client, w3, entered, rest3) =
          went_on (registered string_codec params_codec result_codec refuses env c w2) _ tt s
            rest2 in
        let (res, w4, spawned, rest4) =
          went_on
            (spawn params_codec client hello.options (record { name = "Absurd" })
              default_spawn_options w3)
            _ tt s rest3 in
        let (count, w5, worked, last) = went_on (work_batch client batch w4) _ tt s rest4 in
        let (g, shared, known) = registered_known c client w2 w3 entered in
        ran c client g res count w3 w4 w5 s
          (connect_queue_client refuses url "default" c w w1 connected) shared known spawned worked
          (ap (λ (m : Result (Unit {0}) × World B). m.1) last)
