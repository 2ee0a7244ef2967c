-- ===== src/Types/Duration.antt =====
-- `std::time::Duration` and `duration_seconds_ceil` of src/types.rs. A duration is its number of
-- nanoseconds, below 2^64 * 10^9.
use absurd_rust_sdk.Base.{
  ℕ, ◌+◌, ◌-◌, ◌*◌, ◌/◌, ◌%◌, ◌^◌, ◌≤◌, ◌<◌, min, ◌≡◌, ◌⊎◌, arith, ltb, if◌then◌else◌,
}

abbrev pub Duration : Type 0
Duration = ℕ

abbrev pub nanos_per_sec : ℕ
nanos_per_sec = 1_000_000_000

-- `Duration::from_secs`, `Duration::from_millis`
abbrev pub from_secs : ℕ → Duration
from_secs n = n * nanos_per_sec

abbrev pub from_millis : ℕ → Duration
from_millis n = n * 1_000_000

-- `Duration::MAX`
abbrev pub max_duration : Duration
max_duration = 2 ^ 64 * nanos_per_sec - 1

abbrev pub as_secs : Duration → ℕ
as_secs d = d / nanos_per_sec

abbrev pub subsec_nanos : Duration → ℕ
subsec_nanos d = d % nanos_per_sec

abbrev pub saturating_mul : Duration → ℕ → Duration
saturating_mul d k = min (d * k) max_duration

abbrev pub i32_max : ℕ
i32_max = 2 ^ 31 - 1

abbrev pub u64_max : ℕ
u64_max = 2 ^ 64 - 1

-- `saturating_add` stops at `u64::MAX`. The cast to `i32` is exact, since the value is capped.
unfoldable pub duration_seconds_ceil : Duration → ℕ
duration_seconds_ceil duration =
    let seconds = as_secs duration in
    let nanos = subsec_nanos duration in
    let rounded = min (seconds + (if ltb 0 nanos then 1 else 0)) u64_max in min rounded i32_max

-- The seconds are the least whole number that covers the duration, or `i32::MAX` if that is more.
pub duration_seconds_ceil_least :
    (d : Duration)
    → (duration_seconds_ceil d ≤ i32_max)
      × (duration_seconds_ceil d * nanos_per_sec < d + nanos_per_sec)
      × ((d ≤ duration_seconds_ceil d * nanos_per_sec) ⊎ (duration_seconds_ceil d ≡ i32_max))
unfolding duration_seconds_ceil
duration_seconds_ceil_least d = ground arith

-- A positive duration never becomes zero seconds.
pub duration_seconds_ceil_pos : (d : Duration) → 0 < d → 1 ≤ duration_seconds_ceil d
unfolding duration_seconds_ceil
duration_seconds_ceil_pos d h = ground arith

-- A longer duration never has fewer seconds.
pub duration_seconds_ceil_mono :
    (c d : Duration) → c ≤ d → duration_seconds_ceil c ≤ duration_seconds_ceil d
unfolding duration_seconds_ceil
duration_seconds_ceil_mono c d h = ground arith
