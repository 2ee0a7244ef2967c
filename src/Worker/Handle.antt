-- ===== src/Worker/Handle.antt =====
-- `Worker::start`, `Worker::close` and the drop of a worker in src/worker.rs.
use absurd_rust_sdk.Base.{String, Bool, true, false, ◌⊎◌, inl, inr}
use absurd_rust_sdk.Error.{JoinError, Result, ok, err, join, ◌>>=◌}
use absurd_rust_sdk.Types.Worker.{WorkerOptions, NormalizedWorkerOptions, normalized}

-- What `shutdown_tx` has sent last, and whether there is still a loop to wait for.
pub record Worker : Type 0 where
  pub told_to_stop : Bool
  pub has_handle : Bool

-- The options that the loop runs with, and the worker. The loop begins in `Worker.start`.
unfoldable pub start_worker :
    {H : Type 0} → String → H → WorkerOptions H → Result (NormalizedWorkerOptions H × Worker)
start_worker default_id default_handler options =
    normalized default_id default_handler options >>= λ n.
    ok (n, record { told_to_stop = false; has_handle = true })

-- How the spawned loop ended: with its result, or with a join error.
abbrev joined_loop : Result (Unit {0}) ⊎ JoinError → Result (Unit {0})
joined_loop (inl r) = r
joined_loop (inr j) = err (join j)

unfoldable pub close_worker : Worker → Result (Unit {0}) ⊎ JoinError → Worker × Result (Unit {0})
close_worker w ended = elim w.has_handle [
  | true ↦ (record { told_to_stop = true; has_handle = false }, joined_loop ended)
  | false ↦ (record w { told_to_stop = true }, ok tt)
]

unfoldable pub drop_worker : Worker → Worker
drop_worker w = record w { told_to_stop = true }
