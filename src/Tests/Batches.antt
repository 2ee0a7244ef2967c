-- ===== src/Tests/Batches.antt =====
-- Witnesses for batches of tasks whose handlers fail.
use absurd_rust_sdk.Base.{◌≡◌, refl, false, none, [], ◌∷◌}
use absurd_rust_sdk.Error.{ok, panic, static_str}
use absurd_rust_sdk.Backend.{World, lift}
use absurd_rust_sdk.Client.State.{Client, RegisteredTask}
use absurd_rust_sdk.Client.Batch.{work_batch}
use absurd_rust_sdk.Client.Batch.Recorded.{AreKnown, AllSettle, claim, work_batch_goes_on}
use absurd_rust_sdk.Executor.Finish.Calls.{Records}
use absurd_rust_sdk.Tests.Fixtures.{test_task}
use absurd_rust_sdk.Tests.Spawning.{full, full_world, five, post}

abbrev panicking : RegisteredTask full
panicking = record {
  queue_name = "main";
  default_max_attempts = none;
  default_cancellation = none;
  handler = λ params. lift (panic (static_str "boom"));
}

-- Both tasks of the batch are of this name.
abbrev ready : Client full
ready = record post { registry = record { entries = ("mail", panicking) ∷ []; poisoned = false } }

both_known : AreKnown ready (test_task ∷ test_task ∷ [])
unfolding absurd_rust_sdk.Client.State.get_registration absurd_rust_sdk.Base.lookup
both_known = ((panicking, refl, refl), ((panicking, refl, refl), tt))

full_takes_ends : Records full
full_takes_ends = record {
  connects = λ s. refl;
  completes = λ q id v s. tt;
  fails = λ q id v s. tt;
}

work_batch_goes_on_example :
    (s : World full) × (work_batch ready five full_world ≡ (ok 2, s))
    × AllSettle ready five
        (test_task ∷ test_task ∷ [])
        both_known
        (claim ready five 120 full_world).1
        s
unfolding absurd_rust_sdk.Client.Batch.claim_tasks absurd_rust_sdk.Backend.call
    absurd_rust_sdk.Types.Worker.batch_claim_timeout_seconds
    absurd_rust_sdk.Types.Duration.duration_seconds_ceil
work_batch_goes_on_example =
    work_batch_goes_on ready five 120 (test_task ∷ test_task ∷ []) both_known full_world
      (claim ready five 120 full_world).1 full_takes_ends refl refl
