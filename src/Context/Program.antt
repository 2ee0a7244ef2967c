-- ===== src/Context/Program.antt =====
-- Handlers that use the operations of a context in src/context.rs, with any code between them. What
-- is left out is the wait for the result of another task.
use absurd_rust_sdk.Base.{String}
use absurd_rust_sdk.Error.{Result}
use absurd_rust_sdk.Types.Duration.{Duration}
use absurd_rust_sdk.Backend.{Backend, Codec, World, Action, Timestamp, ◌>>=◌, ◌>>◌}
use absurd_rust_sdk.Context.State.{Run, heartbeat, heartbeat_for}
use absurd_rust_sdk.Context.Step.{step}
use absurd_rust_sdk.Context.Event.{AwaitEventOptions, await_event_with_options, emit_event}
use absurd_rust_sdk.Context.Sleep.{sleep_until, sleep_for}

-- What comes next may depend on every value so far.
module _ (B : Backend) (A : Type 0) where
  pub data Program : Type 1 where
    done : Result A → Program
    does_step : (T : Type 0) → Codec T → String → Action (World B) T → (T → Program) → Program
    awaits : (T : Type 0) → Codec T → String → AwaitEventOptions → (T → Program) → Program
    emits : (T : Type 0) → Codec T → String → T → Program → Program
    sleeps_until : String → Timestamp → Program → Program
    sleeps_for : String → Duration → Program → Program
    beats : Program → Program
    beats_for : Duration → Program → Program

unfoldable pub perform : {B : Backend} {A : Type 0} → Program B A → Action (Run B) A
perform (done x) r = (x, r)
perform (does_step T c name f next) r = (step c name f >>= λ t. perform (next t)) r
perform (awaits T c event o next) r =
    (await_event_with_options c event o >>= λ t. perform (next t)) r
perform (emits T c event t next) r = (emit_event c event t >> perform next) r
perform (sleeps_until name wake_at next) r = (sleep_until name wake_at >> perform next) r
perform (sleeps_for name d next) r = (sleep_for name d >> perform next) r
perform (beats next) r = (heartbeat >> perform next) r
perform (beats_for d next) r = (heartbeat_for d >> perform next) r
