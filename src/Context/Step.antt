-- ===== src/Context/Step.antt =====
-- Steps in src/context.rs: `begin_step`, `complete_step` and `step`.
pub mod Replay
pub mod Rule
pub mod Growth
use absurd_rust_sdk.Base.{String, ◌<>◌, Bool, true, false, Option, none, some, if◌then◌else◌}
use absurd_rust_sdk.Error.{Result, ok, err, config}
use absurd_rust_sdk.Json.{Json}
use absurd_rust_sdk.Text
use absurd_rust_sdk.Backend.{Backend, Codec, World, Action, note, user, pure, lift, ◌>>=◌, ◌>>◌}
use absurd_rust_sdk.Context.State.{
  TaskContext, Run, on_world, take_name, lookup_checkpoint, persist_checkpoint,
}

pub record StepHandle (T : Type 0) : Type 0 where
  pub name : String
  pub checkpoint_name : String
  pub done : Bool
  pub state : Option T

abbrev or_missing : {T : Type 0} → String → Option T → Result T
or_missing checkpoint_name (some t) = ok t
or_missing checkpoint_name none =
    err (
      config ("completed step handle " <> Text.debug checkpoint_name <> " is missing cached state"))

-- `StepHandle::into_cached_state`
unfoldable pub into_cached_state : {T : Type 0} → StepHandle T → Result T
into_cached_state h = or_missing h.checkpoint_name h.state

module _ {B : Backend} {T : Type 0} (c : Codec T) where
  abbrev pub handle : String → String → Option Json → Action (Run B) (StepHandle T)
  handle name checkpoint_name (some cached) = lift (c.from_value cached) >>= λ t.
      pure (record { name = name; checkpoint_name = checkpoint_name; done = true; state = some t })
  handle name checkpoint_name none =
      pure (record { name = name; checkpoint_name = checkpoint_name; done = false; state = none })

  unfoldable pub begin_step : String → Action (Run B) (StepHandle T)
  unfolding lookup_checkpoint
  begin_step name = do
    checkpoint_name ← take_name name
    cached ← lookup_checkpoint checkpoint_name
    handle name checkpoint_name cached

  abbrev persist_value : String → T → Action (Run B) T
  persist_value checkpoint_name value = do
    value_json ← lift (c.to_value value)
    persist_checkpoint checkpoint_name value_json
    pure value

  unfoldable pub complete_step : StepHandle T → T → Action (Run B) T
  unfolding into_cached_state persist_checkpoint
  complete_step h value =
      if h.done then lift (into_cached_state h) else persist_value h.checkpoint_name value

  abbrev compute : StepHandle T → Action (World B) T → Action (Run B) T
  compute h f = do on_world (note user); result ← on_world f; complete_step h result

  -- The step's own function does not have the context, which is borrowed meanwhile.
  unfoldable pub step : String → Action (World B) T → Action (Run B) T
  unfolding begin_step complete_step into_cached_state
  step name f = do h ← begin_step name; (if h.done then lift (into_cached_state h) else compute h f)
