-- ===== src/Lib.antt =====
-- A verification library for the Rust SDK of Absurd, a durable task system whose queue lives in
-- Postgres and is reached only through stored procedures.
--
-- A client (src/client.rs) registers handlers and spawns tasks; a worker (src/worker.rs), or a call of
-- work_batch, claims tasks; the executor (src/executor.rs) runs each claimed task's handler in a task
-- context (src/context.rs) and records how it ended. A context makes a handler durable: the value of a
-- step, the end of a sleep, an event's payload and the result of another task are stored as
-- checkpoints, so that a later attempt of the run finds them. src/task_result.rs polls the result of a
-- task, src/types.rs holds the options and their wire forms, src/error.rs the errors and
-- src/hooks.rs what an application may run around a spawn or a handler.
--
-- Which file models what:
--   Base, Text, Int, Json: shared lists, options and tests, the text functions that the source uses
--     (trim, lower case, decimal and debug output), i32 values and serde_json's values.
--   Error: src/error.rs.
--   Types and its children: src/types.rs, by topic: Duration, Queue, Retry, Task, Worker.
--   Backend: what lies outside. Calls has one constructor for each stored procedure that the source
--     calls and the Backend record; Monad the calls with state; Ending a rule for what holds when an
--     action ends.
--   TaskResult and its children: src/task_result.rs.
--   Context and its children: src/context.rs. State is the context with its checkpoints and its lease,
--     Step, Sleep, Event and Wait are its operations. Attempt is a handler made of steps and events
--     with any code between them, and how a later attempt continues it. Durable is what the context
--     relies on: the database keeps each checkpoint that is written, and gives it back. Program is a handler
--     that uses every operation but the wait, and Lease what the watchdog is told meanwhile, beside what
--     the database is asked.
--   Hooks: src/hooks.rs.
--   Client and its children: src/client.rs.
--   Executor and its children: src/executor.rs. Execute/Spawned follows a task from its registration
--     and its spawn to its execution, Execute/Again a task that is claimed again, and Execute/Renewals
--     what the watchdog is told meanwhile.
--   Worker and its children: src/worker.rs. The loop is a machine; Service is what a worker is to its
--     user, Handle starts and closes it, Tasks are what it spawns.
--   Task: src/task.rs.
--   Examples and its children: examples/hello_world.rs and examples/worker.rs.
--   Tests: each theorem at a concrete input; Memory is a database that keeps what Durable asks for. Units
--     are the unit tests of src/, each as the equations that it asserts of the model.
--
-- How it is modelled. An async function is an action: it takes the world and returns a result beside
-- the world that it leaves, also when it fails. A result is a value, an error or a panic. The world is
-- the state of a Backend, which answers calls, gives connections and tells the time, and a log of what
-- was done, the latest first; nothing is assumed of a Backend but what a theorem names, such as a clock
-- that is not set back, a pool that has a connection, or a codec whose JSON reads back. A run is a
-- context in its world. A user's handler, step function or hook is an arbitrary action.
--
-- Durations are natural numbers of nanoseconds; a timestamp counts them from a whole second, and leap
-- seconds are left out. Seconds are capped at i32::MAX as in the source; i32 values are integers, since
-- the crate compares them only. The bits of f64 values are symbolic. A debug output escapes what the
-- tables of Unicode 14 call unprintable or grapheme-extending, as Text/Unprintable lists them; the
-- newer tables of another compiler may differ for characters that were assigned since.
--
-- An error handler is a function that may panic, and the executor's calls of it do; the worker loop's
-- own calls of it are taken to return. The text of the panic when a time is out of range is the
-- Backend's.
--
-- The polling loop takes fuel, one unit for each round, and gives none when it runs out; with a timeout
-- one unit for each 50 ms of it and one more is enough. Without a timeout the source may poll forever.
-- The worker's loop and the lease watchdog are machines that take one step for each wakeup of a select,
-- in whatever order the wakeups come; an input that a state does not wait for changes nothing. The
-- watchdog runs beside the execution that it watches and is modelled on its own.
--
-- Not modelled: logging, Debug outputs of options, how serde reads queue options, which the crate does
-- not do itself, overflow of the usize step counter, and a panic of tokio_postgres when a
-- column has another type than the source expects. A poisoned lock is a flag of the registry.
pub mod Base
pub mod Text
pub mod Int
pub mod Error
pub mod Json
pub mod Task
pub mod Types
pub mod Backend
pub mod TaskResult
pub mod Context
pub mod Hooks
pub mod Client
pub mod Executor
pub mod Worker
pub mod Examples
pub mod Tests
