-- ===== src/Tests/Units/Types.antt =====
-- The tests of src/types.rs about queue names, durations and queue modes.
use absurd_rust_sdk.Base.{◌≡◌, refl, len, ◌<>◌, true, length}
use absurd_rust_sdk.Text.{codes}
use absurd_rust_sdk.Types.Duration.{from_secs, from_millis, duration_seconds_ceil}
use absurd_rust_sdk.Types.Queue.{validate_queue_name}
use absurd_rust_sdk.Tests.Units.{is_ok, is_err, repeated}

abbrev QueueNameValidationRejectsEmpty : Type 0
QueueNameValidationRejectsEmpty = is_err (validate_queue_name "") ≡ true

queue_name_validation_rejects_empty : QueueNameValidationRejectsEmpty
unfolding validate_queue_name
queue_name_validation_rejects_empty = refl

abbrev QueueNameValidationAcceptsWhitespaceOnly : Type 0
QueueNameValidationAcceptsWhitespaceOnly = is_ok (validate_queue_name "   \t\n") ≡ true

queue_name_validation_accepts_whitespace_only : QueueNameValidationAcceptsWhitespaceOnly
unfolding validate_queue_name
queue_name_validation_accepts_whitespace_only = refl

abbrev QueueNameValidationAcceptsExactly57Utf8Bytes : Type 0
QueueNameValidationAcceptsExactly57Utf8Bytes =
    let queue_name = repeated "a" 57 in
    (len queue_name ≡ 57) × (is_ok (validate_queue_name queue_name) ≡ true)

queue_name_validation_accepts_exactly_57_utf8_bytes : QueueNameValidationAcceptsExactly57Utf8Bytes
unfolding repeated validate_queue_name
queue_name_validation_accepts_exactly_57_utf8_bytes = (refl, refl)

abbrev QueueNameValidationRejects58Utf8Bytes : Type 0
QueueNameValidationRejects58Utf8Bytes =
    let queue_name = repeated "a" 58 in
    (len queue_name ≡ 58) × (is_err (validate_queue_name queue_name) ≡ true)

queue_name_validation_rejects_58_utf8_bytes : QueueNameValidationRejects58Utf8Bytes
unfolding repeated validate_queue_name
queue_name_validation_rejects_58_utf8_bytes = (refl, refl)

-- `chars().count()` is the number of code points.
abbrev QueueNameValidationCountsUtf8Bytes : Type 0
QueueNameValidationCountsUtf8Bytes =
    let short = repeated "é" 28 <> "a" in
    let long = repeated "é" 29 in
    (length (codes short) ≡ 29)
    × (len short ≡ 57)
    × (is_ok (validate_queue_name short) ≡ true)
    × (length (codes long) ≡ 29)
    × (len long ≡ 58)
    × (is_err (validate_queue_name long) ≡ true)

queue_name_validation_counts_utf8_bytes : QueueNameValidationCountsUtf8Bytes
unfolding codes repeated validate_queue_name
queue_name_validation_counts_utf8_bytes = (refl, refl, refl, refl, refl, refl)

abbrev DurationSecondsRoundsUp : Type 0
DurationSecondsRoundsUp =
    (duration_seconds_ceil (from_millis 1) ≡ 1)
    × (duration_seconds_ceil (from_secs 2) ≡ 2)
    × (duration_seconds_ceil 0 ≡ 0)

duration_seconds_rounds_up : DurationSecondsRoundsUp
unfolding duration_seconds_ceil
duration_seconds_rounds_up = (refl, refl, refl)
