-- ===== src/TaskResult/Await/Paced.antt =====
-- How long the polling loop of src/task_result.rs sleeps between its rounds.
use absurd_rust_sdk.Base.{
  ℕ, zero, suc, ◌+◌, ◌∷◌, ◌≡◌, refl, ◌∙◌, arith, true, false, Option, none, some,
}
use absurd_rust_sdk.Error.{Uuid, ok}
use absurd_rust_sdk.Types.Duration.{Duration}
use absurd_rust_sdk.Backend.{Backend, World, Action, slept, sleep}
use absurd_rust_sdk.TaskResult.{Snapshot, is_terminal}
use absurd_rust_sdk.TaskResult.Backoff.{doubled, next_task_result_backoff-doubled}
use absurd_rust_sdk.TaskResult.Await.{
  next_sleep_duration, pause, look, round, poll, await_task_result_with_backoff,
}

suc_plus : (k m : ℕ) → suc k + m ≡ suc (k + m)
suc_plus k m = omega arith

module _ {B : Backend} {H : Type 0} (fetch : Action (World B) (Option Snapshot)) (task_id : Uuid)
    (before_sleep : H → Action (World B) H) where
  abbrev pub after_sleep : Duration → World B → World B
  after_sleep d w = record { state = B.sleep d w.state; log = slept d ∷ w.log }

  -- From one world to another, `k` rounds find the task not ended. Each prepares its sleep with
  -- success, and the sleep of the first of them is `doubled i`, of the next `doubled (suc i)`.
  abbrev pub Paused : (k i : ℕ) → H → World B → H → World B → Type 0
  Paused zero i h w h' w' = (h ≡ h') × (w ≡ w')
  Paused (suc k) i h w h' w' =
      (s : Snapshot) × (u : World B) × (p : H) × (v : World B) × (fetch w ≡ (ok (some s), u))
      × (is_terminal s ≡ false)
      × (before_sleep h u ≡ (ok p, v))
      × Paused k (suc i) p (after_sleep (doubled i) v) h' w'

  open_round :
      (fuel i t : ℕ) (h p : H) (w u v : World B) (s : Snapshot)
      → fetch w ≡ (ok (some s), u)
      → is_terminal s ≡ false
      → before_sleep h u ≡ (ok p, v)
      → poll fetch task_id none before_sleep (suc fuel) t (doubled i) h w
        ≡ poll fetch task_id none before_sleep fuel t
            (doubled (suc i))
            p
            (after_sleep (doubled i) v)
  unfolding poll round look pause next_sleep_duration sleep
  open_round fuel i t h p w u v s found open_ ready =
      rw (found, open_) (rw (ready, next_task_result_backoff-doubled i) refl)

  last_round :
      (fuel i t : ℕ) (h : H) (w v : World B) (s : Snapshot)
      → fetch w ≡ (ok (some s), v)
      → is_terminal s ≡ true
      → poll fetch task_id none before_sleep (suc fuel) t (doubled i) h w ≡ some (ok s, v)
  unfolding poll round look
  last_round fuel i t h w v s found ended = rw (found, ended) refl

  polls :
      (k i m t : ℕ) (h h' : H) (w w' v : World B) (s : Snapshot)
      → Paused k i h w h' w'
      → fetch w' ≡ (ok (some s), v)
      → is_terminal s ≡ true
      → poll fetch task_id none before_sleep (suc (k + m)) t (doubled i) h w ≡ some (ok s, v)
  polls zero i m t h h' w w' v s (same, stays) found ended =
      rw stays (last_round (0 + m) i t h w' v s found ended)
  polls (suc k) i m t h h' w w' v s (x, u, p, y, found, open_, ready, rest) fetched ended =
      open_round (suc k + m) i t h p w u y x found open_ ready
      ∙ rw (suc_plus k m)
          (polls k (suc i) m t p h' (after_sleep (doubled i) y) w' v s rest fetched ended)

  -- A wait without a timeout has rounds, counted from 0, of which the first `k` find the task not
  -- ended and prepare their sleeps with success. Then round i has slept 50 ms times 2^i, but at most
  -- a second, before the next one looks. When round `k` finds that the task has ended, that is the
  -- result, with one unit of fuel for each of the `k + 1` rounds.
  pub await_task_result_with_backoff-Paused :
      (k m : ℕ) (h h' : H) (w w' v : World B) (s : Snapshot)
      → Paused k 0 h (record w { state = (B.instant w.state).1 }) h' w'
      → fetch w' ≡ (ok (some s), v)
      → is_terminal s ≡ true
      → await_task_result_with_backoff fetch task_id none before_sleep (suc (k + m)) h w
        ≡ some (ok s, v)
  unfolding await_task_result_with_backoff absurd_rust_sdk.Backend.instant
  await_task_result_with_backoff-Paused k m h h' w w' v s paused fetched ended =
      polls k 0 m (B.instant w.state).0 h h' (record w { state = (B.instant w.state).1 }) w' v s
        paused fetched ended
