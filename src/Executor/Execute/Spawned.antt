-- ===== src/Executor/Execute/Spawned.antt =====
-- A task from its registration and its spawn to its execution: what src/client.rs and
-- src/executor.rs do together.
use absurd_rust_sdk.Base.{
  is_some, ◌≡◌, refl, sym, ap, ◌∙◌, subst, String, true, if◌then◌else◌, Option, none, some, List,
  ◌∷◌, ◌++◌, unwrap_or, eq_refl,
}
use absurd_rust_sdk.Error.{Result, ok, ok_injective}
use absurd_rust_sdk.Json.{Json, null}
use absurd_rust_sdk.Task.{Task}
use absurd_rust_sdk.Types.Task.{
  TaskOptions, SpawnOptions, SpawnResult, ClaimedTask, spawn_to_sql_json,
}
use absurd_rust_sdk.Backend.{Backend, Codec, IsFaithful, World, Action, Event, sql, spawn_task}
use absurd_rust_sdk.Context.State.{Run, TaskContext, new_context}
use absurd_rust_sdk.Client.State.{RegisteredTask, Registry, Client, get_registration}
use absurd_rust_sdk.Client.Erase.{erase}
use absurd_rust_sdk.Client.Register.Once.{registered_as, register_with_options_lem}
use absurd_rust_sdk.Client.Typed.{register}
use absurd_rust_sdk.Client.Spawn.{spawn_resolved}
use absurd_rust_sdk.Client.Spawn.Resolved.{Fits}
use absurd_rust_sdk.Client.Spawn.Resolved.{Fits}
use absurd_rust_sdk.Client.Spawn.Calls.{spawn_resolved-Spawned}
use absurd_rust_sdk.Types.Worker.{Returns}
use absurd_rust_sdk.Executor.Finish.Calls.{AlwaysConnects}
use absurd_rust_sdk.Executor.Execute.{TaskExecutionConfig, execute_claimed_catching}
use absurd_rust_sdk.Executor.Execute.Typed.{begun, written, run_registered-written}
use absurd_rust_sdk.Executor.Execute.Outcome.{recorded_for, execute_claimed_catching_log}

-- Whether a call, the latest of a log, spawns a task with these parameters on this queue.
abbrev pub LastSpawns : String → String → Json → List Event → Type 0
LastSpawns queue_name name params log =
    (options : Json) × (before : List Event) × (log
      ≡ sql (spawn_task queue_name name params options) ∷ before)

module _ {B : Backend} {P R : Type 0} (params_codec : Codec P) (result_codec : Codec R)
    (h : P → Action (Run B) R) (c : Client B) (task : Task P R) (g : Registry B) where
  abbrev own_queue : String
  own_queue = unwrap_or task.options.queue c.queue_name

  abbrev own_registration : RegisteredTask B
  own_registration = registered_as c task.options (erase params_codec result_codec h)

  register_finds :
      register params_codec result_codec c task h ≡ ok g
      → get_registration g task.options.name ≡ ok (some own_registration)
  unfolding register
  register_finds e =
      let (named, enough, valid, free, found) =
        register_with_options_lem c task.options (erase params_codec result_codec h) g e in
      found task.options.name
      ∙ ap
          (λ b.
            if b then ok (some own_registration) else get_registration c.registry task.options.name)
          (eq_refl task.options.name)

  spawn_goes_to :
      (t : Option TaskOptions) (o : SpawnOptions) (p : P) (json : Json) (res : SpawnResult)
      (w s : World B)
      → get_registration g task.options.name ≡ ok (some own_registration)
      → spawn_resolved params_codec (record c { registry = g }) task.options.name t p o w
        ≡ (ok res, s)
      → params_codec.to_value p ≡ ok json
      → LastSpawns own_queue task.options.name json s.log
  spawn_goes_to t o p json res w s registered e writes =
      let done =
        spawn_resolved-Spawned params_codec (record c { registry = g }) task.options.name t p o w s
          res e in
      let same_task = ok_injective (sym done.registered ∙ registered) in
      let same_params = ok_injective (sym done.written ∙ writes) in
      let (queue, n, policy) = done.resolved in
      let json_options = spawn_to_sql_json done.hooked n policy in
      let for_task =
        subst (λ r. Fits (record c { registry = g }) r t done.hooked done.resolved) same_task
          done.fits in
      (
        json_options,
        done.after_hook.log,
        done.called
            ∙ ap
                (λ (q : String).
                  sql (spawn_task q task.options.name done.value json_options)
                  ∷ done.after_hook.log)
                for_task.0.0
            ∙ ap
                (λ v.
                  sql (spawn_task own_queue task.options.name v json_options) ∷ done.after_hook.log)
                same_params,
      )

  module _ (t : Option TaskOptions) (o : SpawnOptions) (p : P) (w s x y : World B)
      (res : SpawnResult) (claimed : ClaimedTask) (cfg : TaskExecutionConfig B) (ctx : TaskContext)
      (F : IsFaithful params_codec) (connects : AlwaysConnects B) (returns : Returns cfg.on_error)
      (is_registered : register params_codec result_codec c task h ≡ ok g)
      (unwrapped : cfg.hooks.wrap_task_execution ≡ none)
      (is_spawned : spawn_resolved params_codec
          (record c { registry = g })
          task.options.name
          t
          p
          o
          w
        ≡ (ok res, s))
      (named : claimed.task_name ≡ task.options.name)
      (carries : params_codec.to_value p ≡ ok claimed.params)
      (made : new_context own_queue (record claimed { params = null }) cfg.claim_timeout true x
        ≡ (ok ctx, y)) where
    -- A typed task is registered and then spawned by its name, with success, and a worker with this
    -- registry claims, on the task's queue, a task of this name with the parameters as they were
    -- written. Then the last call of the spawn has spawned a task of this name, with these
    -- parameters, on this queue. And the worker runs the handler on the very parameters that the
    -- spawn was given, in the context made for the claimed task, and records how it ends. The codec
    -- of the parameters reads back what it has written, no hook is around the handler, the error
    -- handler returns, and the pool has a connection.
    pub spawned_is_executed :
        LastSpawns own_queue task.options.name claimed.params s.log
        × (let (r, end) = written result_codec (h p (begun ctx y)) in
            (execute_claimed_catching own_queue g claimed cfg x).1.log
            ≡ recorded_for (is_some cfg.on_error) own_queue claimed.run_id r ++ end.log)
    spawned_is_executed =
        let found = register_finds is_registered in
        let runs =
          run_registered-written result_codec params_codec h own_registration claimed cfg p x y ctx
            refl unwrapped (F.reads_back p claimed.params carries) made in
        (
          spawn_goes_to t o p claimed.params res w s found is_spawned carries,
          execute_claimed_catching_log own_queue g claimed cfg own_registration x connects returns
                (ap (get_registration g) named ∙ found) refl
              ∙ ap
                  (λ (m : Result Json × World B).
                    recorded_for (is_some cfg.on_error) own_queue claimed.run_id m.0 ++ m.1.log)
                  runs,
        )
