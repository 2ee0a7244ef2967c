-- ===== src/Context/Event.antt =====
-- Events in src/context.rs: `await_event` and `emit_event`.
pub mod Replayed
pub mod Options
pub mod Growth
pub mod Timeout
use absurd_rust_sdk.Base.{
  ℕ, String, ◌<>◌, Bool, true, false, ◌&&◌, Option, none, some, List, ◌∷◌, contains, remove, insert,
  is_none, unwrap_or, if◌then◌else◌, str_eq,
}
use absurd_rust_sdk.Error.{Result, config, suspended, event_timeout}
use absurd_rust_sdk.Json.{Json, null}
use absurd_rust_sdk.Text.{is_empty, trim}
use absurd_rust_sdk.Types.Duration.{Duration, duration_seconds_ceil}
use absurd_rust_sdk.Backend.{
  Backend, Codec, World, Action, call, pure, raise, lift, modify, ◌>>=◌, ◌>>◌,
  await_event as await_event_call, emit_event as emit_event_call,
}
use absurd_rust_sdk.Context.State.{
  TaskContext, Run, on_world, take_name, cache_value, lookup_checkpoint,
}

pub record AwaitEventOptions : Type 0 where
  pub step_name : Option String
  pub timeout : Option Duration

abbrev pub default_await_event_options : AwaitEventOptions
default_await_event_options = record { step_name = none; timeout = none }

abbrev is_event : Option String → String → Bool
is_event none event_name = false
is_event (some woken) event_name = str_eq woken event_name

abbrev pub map_ceil : Option Duration → Option ℕ
map_ceil none = none
map_ceil (some d) = some (duration_seconds_ceil d)

-- The event that woke this run came without a payload: it had timed out.
unfoldable pub woken_by_timeout : String → TaskContext → Bool
woken_by_timeout event_name c =
    is_event c.task.wake_event event_name && is_none c.task.event_payload

-- The two fields are cleared and the event is marked as reported.
unfoldable pub report_timeout : String → TaskContext → TaskContext
report_timeout event_name c = record c {
  task = record (c.task) { wake_event = none; event_payload = none };
  reported_timeouts = event_name ∷ remove event_name c.reported_timeouts;
}

abbrev pub forget_timeout : String → TaskContext → TaskContext
forget_timeout event_name c = record c { reported_timeouts = remove event_name c.reported_timeouts }

module _ {B : Backend} where
  abbrev pub on_ctx : (TaskContext → TaskContext) → Action (Run B) (Unit {0})
  on_ctx f = modify (λ r. record r { ctx = f r.ctx })

  abbrev reported_before : String → Action (Run B) Json
  reported_before event_name r =
      (if contains event_name r.ctx.reported_timeouts
          then on_ctx (forget_timeout event_name) >> pure null
          else raise (event_timeout event_name))
        r

  -- What the row of `absurd.await_event` means: the payload, or null the first time after a reported
  -- timeout, or a timeout.
  unfoldable pub read_event_row : String → Bool × Option Json → Action (Run B) Json
  read_event_row event_name (true, payload) = raise suspended
  read_event_row event_name (false, some payload) =
      on_ctx (forget_timeout event_name) >> pure payload
  read_event_row event_name (false, none) = reported_before event_name

  unfoldable pub query_event : String → String → Option Duration → Action (Run B) Json
  unfolding read_event_row
  query_event event_name checkpoint_name timeout r =
      (on_world (
            call (
              await_event_call r.ctx.queue_name r.ctx.task.task_id r.ctx.task.run_id checkpoint_name
                event_name (map_ceil timeout)))
          >>= read_event_row event_name)
        r

  module _ {T : Type 0} (c : Codec T) where
    unfoldable pub fresh_event : String → String → Option Duration → Action (Run B) T
    unfolding query_event woken_by_timeout report_timeout
    fresh_event event_name checkpoint_name timeout r =
        (if woken_by_timeout event_name r.ctx
            then on_ctx (report_timeout event_name) >> raise (event_timeout event_name)
            else query_event event_name checkpoint_name timeout >>= λ payload.
                modify (cache_value checkpoint_name payload) >> lift (c.from_value payload))
          r

    abbrev pub event_value : String → String → Option Duration → Option Json → Action (Run B) T
    event_value event_name checkpoint_name timeout (some cached) = lift (c.from_value cached)
    event_value event_name checkpoint_name timeout none =
        fresh_event event_name checkpoint_name timeout

    abbrev event_at : String → String → Option Duration → Action (Run B) T
    event_at event_name step_name timeout = do
      checkpoint_name ← take_name step_name
      cached ← lookup_checkpoint checkpoint_name
      event_value event_name checkpoint_name timeout cached

    unfoldable pub await_event_with_options : String → AwaitEventOptions → Action (Run B) T
    unfolding fresh_event lookup_checkpoint trim
    await_event_with_options event_name options =
        if is_empty (trim event_name)
        then raise (config "event name must be provided")
        else event_at event_name (unwrap_or options.step_name ("$awaitEvent:" <> event_name))
            options.timeout

    unfoldable pub await_event : String → Action (Run B) T
    unfolding await_event_with_options
    await_event event_name = await_event_with_options event_name default_await_event_options

    unfoldable pub emit_event : String → T → Action (Run B) (Unit {0})
    unfolding trim
    emit_event event_name payload =
        if is_empty (trim event_name)
        then raise (config "event name must be provided")
        else lift (c.to_value payload) >>= λ value.
            λ r. on_world (call (emit_event_call r.ctx.queue_name event_name value)) r
