-- ===== src/Context/Sleep/Wake.antt =====
-- When a durable sleep ends.
use absurd_rust_sdk.Base.{◌%◌, ◌+◌, ◌-◌, ◌≤◌, ◌<◌, ◌≡◌, String, Option, none, some, arith}
use absurd_rust_sdk.Error.{ok}
use absurd_rust_sdk.Json.{Json}
use absurd_rust_sdk.Backend.{Backend, Timestamp}
use absurd_rust_sdk.Context.State.{Run, lookup_checkpoint}
use absurd_rust_sdk.Context.State.Cache.{cached_at}
use absurd_rust_sdk.Context.Sleep.{postgres_timestamp_precision}

-- A wake time is cut to whole microseconds: it moves back by less than one, never forward, and
-- cutting it twice changes nothing more.
pub postgres_timestamp_precision_lem :
    (t : Timestamp)
    → (postgres_timestamp_precision t ≡ t - t % 1000)
      × (postgres_timestamp_precision t ≤ t)
      × (t < postgres_timestamp_precision t + 1000)
      × (postgres_timestamp_precision (postgres_timestamp_precision t)
          ≡ postgres_timestamp_precision t)
unfolding postgres_timestamp_precision
postgres_timestamp_precision_lem t = (omega arith, omega arith, omega arith, omega arith)

-- Where a wake time comes from: it is the one asked for, or the one of the checkpoint.
abbrev pub Origin : Timestamp → Option Json → Timestamp → Json → Type 0
Origin asked none t v = t ≡ asked
Origin asked (some j) t v = v ≡ j

module _ {B : Backend} where
  abbrev Recorded : String → Timestamp → Option Json → Timestamp → Run B → Type 0
  Recorded k asked o t s =
      (v : Json) × (cached_at k s ≡ some v)
      × (B.time_codec.from_value v ≡ ok t)
      × Origin asked o t v

  -- A checkpoint that holds a wake time which has come. The time is the one asked for, if a lookup
  -- from the first run finds no checkpoint, and else the one that is found.
  abbrev pub Woken : String → Timestamp → Timestamp → Run B → Run B → Type 0
  Woken k asked now from s =
      (o : Option Json) × (u : Run B) × (lookup_checkpoint k from ≡ (ok o, u))
      × (t : Timestamp) × Recorded k asked o t s
      × (t ≤ now)

  abbrev Due : String → Timestamp → Option Json → Timestamp → Run B → Type 0
  Due k asked o now s = (t : Timestamp) × Recorded k asked o t s × (t ≤ now)
