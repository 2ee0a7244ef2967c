-- ===== src/Executor/Execute/Typed.antt =====
-- The run of a handler that was registered with the types of its parameters and its result.
use absurd_rust_sdk.Base.{◌≡◌, refl, ap, ◌∙◌, true, none, ◌∷◌}
use absurd_rust_sdk.Error.{Result, ok, err, panic}
use absurd_rust_sdk.Json.{Json, null}
use absurd_rust_sdk.Types.Task.{ClaimedTask}
use absurd_rust_sdk.Backend.{Backend, Codec, World, Action, user, continue, lift}
use absurd_rust_sdk.Context.State.{Run, TaskContext, new_context}
use absurd_rust_sdk.Client.State.{RegisteredTask}
use absurd_rust_sdk.Client.Erase.{erase}
use absurd_rust_sdk.Executor.Execute.{TaskExecutionConfig, run_registered, run_handler}

-- The run in which the executor starts a handler: its future is run in the world.
abbrev pub begun : {B : Backend} → TaskContext → World B → Run B
begun ctx w = record { ctx = ctx; world = record w { log = user ∷ w.log } }

module _ {B : Backend} {R : Type 0} (result_codec : Codec R) where
  -- The end of a handler as the executor sees it.
  abbrev pub written : Result R × Run B → Result Json × World B
  written (ok a, s) = (result_codec.to_value a, s.world)
  written (err e, s) = (err e, s.world)
  written (panic p, s) = (panic p, s.world)

  writes_end :
      (m : Result R × Run B)
      → let (r, s) = continue m.0 (λ a. lift (result_codec.to_value a)) m.1 in
        ◌≡◌ {A = Result Json × World B} (r, s.world) (written m)
  writes_end (ok a, s) = refl
  writes_end (err e, s) = refl
  writes_end (panic p, s) = refl

  -- Without a hook, the handler runs on the parameters in the new context.
  pub run_registered-written :
      {P : Type 0} (params_codec : Codec P) (h : P → Action (Run B) R)
      (registration : RegisteredTask B) (task : ClaimedTask) (cfg : TaskExecutionConfig B) (p : P)
      (w u : World B) (ctx : TaskContext)
      → registration.handler ≡ erase params_codec result_codec h
      → cfg.hooks.wrap_task_execution ≡ none
      → params_codec.from_value task.params ≡ ok p
      → new_context registration.queue_name (record task { params = null }) cfg.claim_timeout true w
        ≡ (ok ctx, u)
      → run_registered registration task cfg w ≡ written (h p (begun ctx u))
  unfolding run_registered run_handler erase
  run_registered-written params_codec h registration task cfg p w u ctx is_handler unwrapped decoded
        made =
      ap
        (λ (m : Result TaskContext × World B).
          continue m.0 (λ ctx. run_handler registration.handler task.params cfg.hooks ctx) m.1)
        made
      ∙ rw (unwrapped, is_handler, decoded) (writes_end (h p (begun ctx u)))
