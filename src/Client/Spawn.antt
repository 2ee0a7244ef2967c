-- ===== src/Client/Spawn.antt =====
-- Spawning in src/client.rs: which queue, how many attempts and which cancellation policy a spawn
-- gets, and the call that it makes.
pub mod Resolved
pub mod Calls
use absurd_rust_sdk.Base.{
  String, ◌<>◌, Bool, Option, none, some, not, and_then, or_else, unwrap_or, if◌then◌else◌, str_eq,
}
use absurd_rust_sdk.Error.{Result, ok, err, config}
use absurd_rust_sdk.Error
use absurd_rust_sdk.Int.{ℤ, pos, ltb_ℤ}
use absurd_rust_sdk.Text
use absurd_rust_sdk.Text.{is_empty, trim}
use absurd_rust_sdk.Types.Queue.{validate_queue_name}
use absurd_rust_sdk.Types.Retry.{CancellationPolicy}
use absurd_rust_sdk.Types.Task.{TaskOptions, SpawnOptions, SpawnResult, spawn_to_sql_json}
use absurd_rust_sdk.Backend.{
  Backend, Codec, World, Action, call, pure, raise, lift, ◌>>=◌, ◌>>◌, spawn_task,
}
use absurd_rust_sdk.Hooks.{apply_before_spawn}
use absurd_rust_sdk.Client.State.{RegisteredTask, Client, get_registration}

abbrev differs : Option String → String → Bool
differs none queue_name = Bool.false
differs (some q) queue_name = not (str_eq q queue_name)

abbrev task_queue : Option TaskOptions → Option String
task_queue t = and_then t (λ task. task.queue)

unfoldable pub registered_queue : String → Option String → Option String → String → Result String
registered_queue task_name requested typed queue_name =
    if differs requested queue_name
    then err (
        config (
          "task "
          <> Text.debug task_name
          <> " is registered for queue "
          <> Text.debug queue_name
          <> ", but spawn requested queue "
          <> Text.debug (unwrap_or requested "")))
    else if differs typed queue_name
    then err (
        config (
          "typed task "
          <> Text.debug task_name
          <> " targets queue "
          <> Text.debug (unwrap_or typed "")
          <> ", but registered queue is "
          <> Text.debug queue_name))
    else ok queue_name

unregistered_message : String → String
unregistered_message task_name =
    "task "
    <> Text.debug task_name
    <> " is not registered; provide SpawnOptions::queue or Task::queue for unregistered tasks"

abbrev unregistered_queue : String → Option String → Result String
unregistered_queue task_name none = err (config (unregistered_message task_name))
unregistered_queue task_name (some queue) = ok queue

-- The queue of a spawn, from the registration if there is one.
unfoldable pub resolve_queue :
    String → Option String → Option String → Option String → Result String
unfolding registered_queue unregistered_message
resolve_queue task_name (some queue_name) requested typed =
    registered_queue task_name requested typed queue_name
resolve_queue task_name none requested typed =
    unregistered_queue task_name (or_else requested typed)

abbrev enough_attempts : ℤ → Result ℤ
enough_attempts n = if ltb_ℤ n (pos 1) then err (config "max attempts must be at least 1") else ok n

module _ {B : Backend} where
  abbrev registered_attempts : Option (RegisteredTask B) → Option ℤ
  registered_attempts r = and_then r (λ reg. reg.default_max_attempts)

  abbrev registered_cancellation : Option (RegisteredTask B) → Option CancellationPolicy
  registered_cancellation r = and_then r (λ reg. reg.default_cancellation)

  abbrev registration_queue : Option (RegisteredTask B) → Option String
  registration_queue none = none
  registration_queue (some reg) = some reg.queue_name

  unfoldable pub effective_max_attempts :
      Client B → Option (RegisteredTask B) → Option TaskOptions → SpawnOptions → ℤ
  effective_max_attempts c registration task_options options =
      unwrap_or
        (or_else options.max_attempts (
          or_else (registered_attempts registration)
            (and_then task_options (λ task. task.default_max_attempts))))
        c.default_max_attempts

  unfoldable pub effective_cancellation :
      Option (RegisteredTask B) → Option TaskOptions → SpawnOptions → Option CancellationPolicy
  effective_cancellation registration task_options options = or_else options.cancellation (
      or_else (registered_cancellation registration)
        (and_then task_options (λ task. task.default_cancellation)))

  unfoldable pub resolve_with :
      Client B
      → Option (RegisteredTask B)
      → String
      → Option TaskOptions
      → SpawnOptions
      → Result (String × ℤ × Option CancellationPolicy)
  unfolding resolve_queue effective_max_attempts effective_cancellation validate_queue_name
  resolve_with c registration task_name task_options options =
      Error.◌>>=◌
        (resolve_queue task_name (registration_queue registration) options.queue
          (task_queue task_options))
        λ queue_name. Error.◌>>=◌ (validate_queue_name queue_name) λ _.
          Error.◌>>=◌ (enough_attempts (effective_max_attempts c registration task_options options))
            λ max_attempts.
              ok
                (queue_name, max_attempts, effective_cancellation registration task_options options)

  unfoldable pub resolve_spawn :
      Client B
      → String
      → Option TaskOptions
      → SpawnOptions
      → Result (String × ℤ × Option CancellationPolicy)
  unfolding resolve_with
  resolve_spawn c task_name task_options options =
      Error.◌>>=◌ (get_registration c.registry task_name)
        λ registration. resolve_with c registration task_name task_options options

  module _ {P : Type 0} (codec : Codec P) where
    unfoldable pub spawn_checked :
        Client B → String → Option TaskOptions → P → SpawnOptions → Action (World B) SpawnResult
    unfolding resolve_spawn apply_before_spawn
    spawn_checked c task_name task_options params options = do
      value ← lift (codec.to_value params)
      hooked ← apply_before_spawn c.hooks task_name value options
      (queue_name, max_attempts, cancellation) ←
          lift (resolve_spawn c task_name task_options hooked)
      call (
          spawn_task queue_name task_name value
            (spawn_to_sql_json hooked max_attempts cancellation))

    unfoldable pub spawn_resolved :
        Client B → String → Option TaskOptions → P → SpawnOptions → Action (World B) SpawnResult
    unfolding spawn_checked trim
    spawn_resolved c task_name task_options params options =
        if is_empty (trim task_name)
        then raise (config "task name must be provided")
        else spawn_checked c task_name task_options params options

    abbrev spawn_with_task_options :
        Client B → TaskOptions → P → SpawnOptions → Action (World B) SpawnResult
    spawn_with_task_options c task_options params options =
        spawn_resolved c task_options.name (some task_options) params options

    -- `spawn` of a typed task, by its options.
    abbrev pub spawn : Client B → TaskOptions → P → SpawnOptions → Action (World B) SpawnResult
    spawn c task params options = spawn_with_task_options c task params options

    abbrev pub spawn_named : Client B → String → P → SpawnOptions → Action (World B) SpawnResult
    spawn_named c task_name params options = spawn_resolved c task_name none params options
