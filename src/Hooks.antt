-- ===== src/Hooks.antt =====
-- src/hooks.rs: what an application may run before a spawn and around a task's handler.
use absurd_rust_sdk.Base.{String, ◌<>◌, Bool, true, false, Option, none, some, is_some}
use absurd_rust_sdk.Json.{Json}
use absurd_rust_sdk.Types.Task.{SpawnOptions}
use absurd_rust_sdk.Backend.{Backend, World, Action, note, user, pure, ◌>>◌}
use absurd_rust_sdk.Context.State.{Run}

-- A handler or a hook is any action: it may use the context and the database, fail or panic.
abbrev pub TaskExecution : Backend → Type 0
TaskExecution B = Action (Run B) Json

module _ (B : Backend) where
  pub record Hooks : Type 0 where
    pub before_spawn : Option (String → Json → SpawnOptions → Action (World B) SpawnOptions)
    pub wrap_task_execution : Option (TaskExecution B → TaskExecution B)

abbrev pub default_hooks : {B : Backend} → Hooks B
default_hooks = record { before_spawn = none; wrap_task_execution = none }

-- `Hooks::before_spawn` and `Hooks::wrap_task_execution`
abbrev pub with_before_spawn :
    {B : Backend}
    → Hooks B
    → (String → Json → SpawnOptions → Action (World B) SpawnOptions)
    → Hooks B
with_before_spawn hooks hook = record hooks { before_spawn = some hook }

abbrev pub with_wrap_task_execution :
    {B : Backend} → Hooks B → (TaskExecution B → TaskExecution B) → Hooks B
with_wrap_task_execution hooks hook = record hooks { wrap_task_execution = some hook }

abbrev shown : Bool → String
shown true = "true"
shown false = "false"

-- `format!("{hooks:?}")`: which hooks there are.
unfoldable pub to_debug : {B : Backend} → Hooks B → String
to_debug hooks =
    "Hooks { before_spawn: "
    <> shown (is_some hooks.before_spawn)
    <> ", wrap_task_execution: "
    <> shown (is_some hooks.wrap_task_execution)
    <> " }"

abbrev run_before_spawn :
    {B : Backend}
    → Option (String → Json → SpawnOptions → Action (World B) SpawnOptions)
    → String
    → Json
    → SpawnOptions
    → Action (World B) SpawnOptions
run_before_spawn none task_name params options = pure options
run_before_spawn (some hook) task_name params options = note user >> hook task_name params options

unfoldable pub apply_before_spawn :
    {B : Backend} → Hooks B → String → Json → SpawnOptions → Action (World B) SpawnOptions
apply_before_spawn hooks = run_before_spawn hooks.before_spawn
