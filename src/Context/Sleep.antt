-- ===== src/Context/Sleep.antt =====
-- Durable sleeps in src/context.rs.
pub mod Wake
use absurd_rust_sdk.Base.{
  ℕ, ◌+◌, ◌*◌, ◌/◌, ◌%◌, String, Bool, Option, none, some, ltb, if◌then◌else◌,
}
use absurd_rust_sdk.Error.{Result, ok, err, panic, config, suspended, PanicPayload}
use absurd_rust_sdk.Json.{Json}
use absurd_rust_sdk.Types.Duration.{Duration, nanos_per_sec}
use absurd_rust_sdk.Backend.{Backend, World, Action, Timestamp, pure, raise, lift, ◌>>=◌, ◌>>◌}
use absurd_rust_sdk.Context.State.{
  Run, take_name, lookup_checkpoint, persist_checkpoint, schedule_run, current_time,
}

-- `timestamp_subsec_micros() * 1_000` in place of the nanoseconds.
unfoldable pub postgres_timestamp_precision : Timestamp → Timestamp
postgres_timestamp_precision t = t / nanos_per_sec * nanos_per_sec + t % nanos_per_sec / 1000 * 1000

-- `now + duration` panics where the sum is no date.
abbrev pub or_panic : PanicPayload → Option Timestamp → Result Timestamp
or_panic p (some t) = ok t
or_panic p none = panic p

abbrev pub or_too_large : Option Duration → Result Duration
or_too_large (some d) = ok d
or_too_large none = err (config "sleep duration is too large for chrono")

module _ {B : Backend} where
  -- The time that the sleep ends at: the one of the checkpoint, if there is one.
  unfoldable pub settle_wake : String → Timestamp → Option Json → Action (Run B) Timestamp
  unfolding persist_checkpoint
  settle_wake checkpoint_name wake_at (some cached) = lift (B.time_codec.from_value cached)
  settle_wake checkpoint_name wake_at none = do
    value ← lift (B.time_codec.to_value wake_at)
    persist_checkpoint checkpoint_name value
    pure wake_at

  unfoldable pub suspend_until : Timestamp → Timestamp → Action (Run B) (Unit {0})
  unfolding schedule_run
  suspend_until now actual_wake_at =
      if ltb now actual_wake_at then (do schedule_run actual_wake_at; raise suspended) else pure tt

  unfoldable pub sleep_until_at_current_time :
      String → Timestamp → Timestamp → Action (Run B) (Unit {0})
  unfolding settle_wake suspend_until lookup_checkpoint
  sleep_until_at_current_time name wake_at now = do
    checkpoint_name ← take_name name
    cached ← lookup_checkpoint checkpoint_name
    actual_wake_at ← settle_wake checkpoint_name (postgres_timestamp_precision wake_at) cached
    suspend_until now actual_wake_at

  unfoldable pub sleep_until : String → Timestamp → Action (Run B) (Unit {0})
  unfolding sleep_until_at_current_time current_time
  sleep_until name wake_at = do now ← current_time; sleep_until_at_current_time name wake_at now

  unfoldable pub sleep_for : String → Duration → Action (Run B) (Unit {0})
  unfolding sleep_until_at_current_time current_time
  sleep_for name duration = do
    d ← lift (or_too_large (B.from_std duration))
    now ← current_time
    wake_at ← lift (or_panic B.overflow (B.add_time now d))
    sleep_until_at_current_time name wake_at now
