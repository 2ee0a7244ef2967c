-- ===== src/TaskResult.antt =====
-- src/task_result.rs: the states of a task, its snapshots, and their forms in SQL and JSON.
pub mod Forms
pub mod Backoff
pub mod Await
use absurd_rust_sdk.Base.{
  String, ◌<>◌, Bool, true, false, Option, none, some, List, head?, unwrap_or, if◌then◌else◌,
  str_eq,
}
use absurd_rust_sdk.Error.{Uuid, ForeignError, Result, ok, err, config, serialization, ◌>>=◌}
use absurd_rust_sdk.Json.{
  Json, Items, nil, cons, array, Fields, null, string, object, field, end, get,
}
use absurd_rust_sdk.Text
use absurd_rust_sdk.Types.Duration.{Duration}
use absurd_rust_sdk.Backend.{Backend, Codec}

pub data TaskResultState : Type 0 where
  pending running sleeping completed failed cancelled : TaskResultState

unfoldable pub state_as_str : TaskResultState → String
state_as_str pending = "pending"
state_as_str running = "running"
state_as_str sleeping = "sleeping"
state_as_str completed = "completed"
state_as_str failed = "failed"
state_as_str cancelled = "cancelled"

unfoldable pub is_terminal_state : TaskResultState → Bool
is_terminal_state completed = true
is_terminal_state failed = true
is_terminal_state cancelled = true
is_terminal_state _ = false

-- `TaskResultState::try_from`
unfoldable pub state_try_from : String → Result TaskResultState
state_try_from value =
    if str_eq value "pending"
    then ok pending
    else if str_eq value "running"
    then ok running
    else if str_eq value "sleeping"
    then ok sleeping
    else if str_eq value "completed"
    then ok completed
    else if str_eq value "failed"
    then ok failed
    else if str_eq value "cancelled"
    then ok cancelled
    else err (config ("unknown task result state " <> Text.debug value))

-- `TaskResultSnapshot`
pub data Snapshot : Type 0 where
  is_pending is_running is_sleeping is_cancelled : Snapshot
  is_completed : Json → Snapshot
  is_failed : Json → Snapshot

unfoldable pub state_of : Snapshot → TaskResultState
state_of is_pending = pending
state_of is_running = running
state_of is_sleeping = sleeping
state_of (is_completed _) = completed
state_of (is_failed _) = failed
state_of is_cancelled = cancelled

unfoldable pub is_terminal : Snapshot → Bool
unfolding is_terminal_state state_of
is_terminal s = is_terminal_state (state_of s)

unfoldable pub result_of : Snapshot → Option Json
result_of (is_completed r) = some r
result_of _ = none

unfoldable pub failure_of : Snapshot → Option Json
failure_of (is_failed f) = some f
failure_of _ = none

abbrev transpose : {T : Type 0} → (Json → Result T) → Option Json → Result (Option T)
transpose read none = ok none
transpose read (some j) = read j >>= λ t. ok (some t)

-- `deserialize_result` and `deserialize_failure`
unfoldable pub deserialize_result : {T : Type 0} → Codec T → Snapshot → Result (Option T)
unfolding result_of
deserialize_result c s = transpose c.from_value (result_of s)

unfoldable pub deserialize_failure : {T : Type 0} → Codec T → Snapshot → Result (Option T)
unfolding failure_of
deserialize_failure c s = transpose c.from_value (failure_of s)

abbrev snapshot_in : TaskResultState → Option Json → Option Json → Snapshot
snapshot_in pending result failure = is_pending
snapshot_in running result failure = is_running
snapshot_in sleeping result failure = is_sleeping
snapshot_in completed result failure = is_completed (unwrap_or result null)
snapshot_in failed result failure = is_failed (unwrap_or failure null)
snapshot_in cancelled result failure = is_cancelled

unfoldable pub from_sql_parts : String → Option Json → Option Json → Result Snapshot
from_sql_parts state result failure =
    state_try_from state >>= λ s. ok (snapshot_in s result failure)

-- The derived serde of a snapshot: the tag `state`, and the payload, which is null if it is missing.
snapshot_fields : Snapshot → Fields
snapshot_fields (is_completed r) = field "state" (string "completed") (field "result" r end)
snapshot_fields (is_failed f) = field "state" (string "failed") (field "failure" f end)
snapshot_fields is_pending = field "state" (string "pending") end
snapshot_fields is_running = field "state" (string "running") end
snapshot_fields is_sleeping = field "state" (string "sleeping") end
snapshot_fields is_cancelled = field "state" (string "cancelled") end

tagged : Option Json → Fields → Option Snapshot
tagged (some (string s)) m =
    if str_eq s "pending"
    then some is_pending
    else if str_eq s "running"
    then some is_running
    else if str_eq s "sleeping"
    then some is_sleeping
    else if str_eq s "completed"
    then some (is_completed (unwrap_or (get "result" m) null))
    else if str_eq s "failed"
    then some (is_failed (unwrap_or (get "failure" m) null))
    else if str_eq s "cancelled"
    then some is_cancelled
    else none
tagged _ m = none

-- What follows the tag in an array: no more than the payload, and for a unit variant nothing.
unit_in : Items → Snapshot → Option Snapshot
unit_in nil s = some s
unit_in (cons v vs) s = none

payload_of : Items → (Json → Snapshot) → Option Snapshot
payload_of nil f = some (f null)
payload_of (cons v nil) f = some (f v)
payload_of (cons v (cons w vs)) f = none

listed : String → Items → Option Snapshot
unfolding unit_in payload_of
listed s vs =
    if str_eq s "pending"
    then unit_in vs is_pending
    else if str_eq s "running"
    then unit_in vs is_running
    else if str_eq s "sleeping"
    then unit_in vs is_sleeping
    else if str_eq s "completed"
    then payload_of vs is_completed
    else if str_eq s "failed"
    then payload_of vs is_failed
    else if str_eq s "cancelled"
    then unit_in vs is_cancelled
    else none

-- An object that has the tag as a field, or an array that begins with it.
snapshot_from : Json → Option Snapshot
unfolding listed
snapshot_from (object m) = tagged (get "state" m) m
snapshot_from (array (cons (string s) vs)) = listed s vs
snapshot_from _ = none

abbrev or_refuse : Option Snapshot → ForeignError → Result Snapshot
or_refuse none e = err (serialization e)
or_refuse (some s) e = ok s

unfoldable pub snapshot_to_value : Snapshot → Result Json
unfolding snapshot_fields
snapshot_to_value s = ok (object (snapshot_fields s))

unfoldable pub snapshot_from_value : (Json → ForeignError) → Json → Result Snapshot
unfolding snapshot_from tagged listed get
snapshot_from_value refuse j = or_refuse (snapshot_from j) (refuse j)

abbrev pub snapshot_codec : Backend → Codec Snapshot
snapshot_codec B = record {
  to_value = snapshot_to_value;
  from_value = snapshot_from_value B.serde_error;
}
