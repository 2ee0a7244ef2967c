-- ===== src/TaskResult/Forms.antt =====
-- States and snapshots in their SQL and JSON forms.
use absurd_rust_sdk.Base.{
  ◌≡◌, ◌↔◌, ◌⊎◌, refl, String, true, Option, none, some, is_some, ◌||◌, arith, eq_iff, unwrap_or,
  str_eq, if◌then◌else◌, none,
}
use absurd_rust_sdk.Error.{ok, ok_injective}
use absurd_rust_sdk.Json.{Json, null}
use absurd_rust_sdk.Backend.{Backend, IsFaithful}
use absurd_rust_sdk.TaskResult.{
  TaskResultState, pending, running, sleeping, completed, failed, cancelled, state_as_str,
  state_try_from, Snapshot, is_pending, state_of, is_terminal, result_of, failure_of,
  from_sql_parts, snapshot_in, snapshot_to_value, snapshot_from_value, snapshot_codec,
}

state_try_from-as_str : (t : TaskResultState) → state_try_from (state_as_str t) ≡ ok t
unfolding state_try_from state_as_str
state_try_from-as_str pending = refl
state_try_from-as_str running = refl
state_try_from-as_str sleeping = refl
state_try_from-as_str completed = refl
state_try_from-as_str failed = refl
state_try_from-as_str cancelled = refl

named : (s : String) (t : TaskResultState) → state_try_from s ≡ ok t → s ≡ state_as_str t
unfolding state_try_from state_as_str
named s t e = ground (
  arith,
  eq_iff s "pending",
  eq_iff s "running",
  eq_iff s "sleeping",
  eq_iff s "completed",
  eq_iff s "failed",
  eq_iff s "cancelled",
)

-- A text is read as a state exactly when it is the name of that state.
pub state_try_from_iff :
    (s : String) (t : TaskResultState) → (state_try_from s ≡ ok t) ↔ (s ≡ state_as_str t)
state_try_from_iff s t = (named s t, λ e. rw e (state_try_from-as_str t))

-- What is shown of a payload: nothing, unless the state is the one that has it.
abbrev pub payload_in : String → TaskResultState → Option Json → Option Json
payload_in name t payload =
    if str_eq (state_as_str t) name then some (unwrap_or payload null) else none

-- A row of the database is read as a snapshot in the state that it names. The snapshot shows a result
-- exactly when the task is completed, and a failure exactly when it has failed: the one of the row,
-- or null if it is missing.
pub from_sql_parts_lem :
    (t : TaskResultState) (result failure : Option Json)
    → (s : Snapshot) × (from_sql_parts (state_as_str t) result failure ≡ ok s)
      × (state_of s ≡ t)
      × (result_of s ≡ payload_in "completed" t result)
      × (failure_of s ≡ payload_in "failed" t failure)
unfolding from_sql_parts state_of result_of failure_of state_as_str
from_sql_parts_lem t result failure =
    (snapshot_in t result failure, readable t, in_state t, shows_result t, shows_failure t)
  where
    readable :
        (t : TaskResultState)
        → from_sql_parts (state_as_str t) result failure ≡ ok (snapshot_in t result failure)
    readable t = rw (state_try_from-as_str t) refl

    in_state : (t : TaskResultState) → state_of (snapshot_in t result failure) ≡ t
    in_state pending = refl
    in_state _ = refl

    shows_result :
        (t : TaskResultState)
        → result_of (snapshot_in t result failure) ≡ payload_in "completed" t result
    shows_result completed = refl
    shows_result _ = refl

    shows_failure :
        (t : TaskResultState)
        → failure_of (snapshot_in t result failure) ≡ payload_in "failed" t failure
    shows_failure failed = refl
    shows_failure _ = refl

-- Only a terminal snapshot has a payload, and never both.
pub payload_terminal :
    (s : Snapshot)
    → ((is_some (result_of s) || is_some (failure_of s)) ≡ true → is_terminal s ≡ true)
      × ((result_of s ≡ none) ⊎ (failure_of s ≡ none))
unfolding result_of failure_of is_terminal
payload_terminal s = ground arith

reads_back :
    (B : Backend) (s : Snapshot) (j : Json)
    → snapshot_to_value s ≡ ok j
    → snapshot_from_value B.serde_error j ≡ ok s
unfolding snapshot_to_value snapshot_from_value
reads_back B is_pending j e = rw (← ok_injective e)
reads_back B _ j e = rw (← ok_injective e)

-- A snapshot survives being written as JSON and read back.
pub snapshot_codec-IsFaithful : (B : Backend) → IsFaithful (snapshot_codec B)
snapshot_codec-IsFaithful B = record { reads_back = reads_back B }
