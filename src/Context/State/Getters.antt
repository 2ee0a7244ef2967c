-- ===== src/Context/State/Getters.antt =====
-- What a handler reads of its context, in src/context.rs.
use absurd_rust_sdk.Base.{String}
use absurd_rust_sdk.Error.{Uuid}
use absurd_rust_sdk.Int.{ℤ}
use absurd_rust_sdk.Json.{Fields}
use absurd_rust_sdk.Context.State.{TaskContext}

abbrev pub task_id : TaskContext → Uuid
task_id c = c.task.task_id

abbrev pub run_id : TaskContext → Uuid
run_id c = c.task.run_id

abbrev pub task_name : TaskContext → String
task_name c = c.task.task_name

abbrev pub queue_name : TaskContext → String
queue_name c = c.queue_name

abbrev pub attempt : TaskContext → ℤ
attempt c = c.task.attempt

abbrev pub headers : TaskContext → Fields
headers c = c.headers
