-- ===== src/TaskResult/Await/Deadline.antt =====
-- The polling loop with a timeout comes to an end, whatever the database answers.
use absurd_rust_sdk.Base.{
  ℕ, zero, suc, ◌+◌, ◌-◌, ◌*◌, ◌≤◌, ◌<◌, min, ◌≡◌, refl, false, Option, none, some, inl, inr, arith,
  Bool-cases, leb,
}
use absurd_rust_sdk.Error.{Uuid, Result, ok, err, panic}
use absurd_rust_sdk.Types.Duration.{Duration}
use absurd_rust_sdk.Backend.{Backend, World, Action, pure, continue, ◌>>◌, instant, sleep}
use absurd_rust_sdk.TaskResult.{Snapshot, is_terminal}
use absurd_rust_sdk.TaskResult.Backoff.{
  initial_task_result_backoff, next_task_result_backoff, next_task_result_backoff_bounds,
}
use absurd_rust_sdk.TaskResult.Await.{
  Turn, finished, again, pause, look, round, next_turn, poll, await_task_result_with_backoff,
}

leb-false : (a b : ℕ) → leb a b ≡ false → b < a
leb-false a b h = ground arith

-- A clock of the backend: `Instant::now` reads it, and a sleep lasts at least as long as it was
-- asked to.
pub record Clock (B : Backend) : Type 0 where
  pub now : B.State → ℕ
  pub reads_after : (s : B.State) → now s ≤ (B.instant s).0
  pub goes_on : (s : B.State) → (B.instant s).0 ≤ now (B.instant s).1
  pub sleeps : (d : Duration) (s : B.State) → now s + d ≤ now (B.sleep d s)

module _ {B : Backend} (C : Clock B) {H : Type 0} (fetch : Action (World B) (Option Snapshot))
    (task_id : Uuid) (timeout : Duration) (before_sleep : H → Action (World B) H)
    (fetch_later : (w : World B) → C.now w.state ≤ C.now (fetch w).1.state)
    (before_sleep_later : (h : H) (w : World B)
      → C.now w.state ≤ C.now (before_sleep h w).1.state) where
  -- A round that goes on began before the deadline, and ends a full delay later or at the deadline.
  abbrev Progress : ℕ → Duration → World B → Result (Turn H) × World B → Type 0
  Progress started_at delay w (ok (again h), w') =
      (C.now w.state < started_at + timeout)
      × (min (C.now w.state + delay) (started_at + timeout) ≤ C.now w'.state)
  Progress started_at delay w _ = Unit

  pause_slept :
      (started_at : ℕ) (delay d : Duration) (w v : World B) (r : Result H × World B)
      → C.now w.state < started_at + timeout
      → C.now w.state ≤ C.now v.state
      → min (C.now w.state + delay) (started_at + timeout) ≤ C.now v.state + d
      → C.now v.state ≤ C.now r.1.state
      → Progress started_at delay w (continue r.0 (λ h'. sleep d >> pure (again h')) r.1)
  unfolding sleep
  pause_slept started_at delay d w v (ok h, u) early later due after =
      omega (arith, C.sleeps d u.state)
  pause_slept started_at delay d w v (err e, u) early later due after = tt
  pause_slept started_at delay d w v (panic p, u) early later due after = tt

  pause-Progress :
      (started_at : ℕ) (delay : Duration) (h : H) (w : World B)
      → started_at ≤ C.now w.state
      → Progress started_at delay w
          (pause fetch task_id (some timeout) before_sleep started_at delay h w)
  unfolding pause instant
  pause-Progress started_at delay h w begun =
      let (t, s) = B.instant w.state in
      let v : World B = record w { state = s } in
      elim (Bool-cases (leb timeout (t - started_at))) [
        | inl late ↦ rw late tt
        | inr early ↦ rw early (
            pause_slept started_at delay (min delay (timeout - (t - started_at))) w v
              (before_sleep h v) (ground (arith, C.reads_after w.state))
              (omega (arith, C.reads_after w.state, C.goes_on w.state))
              (omega (
                arith,
                C.reads_after w.state,
                C.goes_on w.state,
                leb-false timeout (t - started_at) early,
              ))
              (before_sleep_later h v))
      ]

  Progress-earlier :
      (started_at : ℕ) (delay : Duration) (w v : World B) (r : Result (Turn H) × World B)
      → C.now w.state ≤ C.now v.state
      → Progress started_at delay v r
      → Progress started_at delay w r
  Progress-earlier started_at delay w v (ok (again h), u) le p = omega arith
  Progress-earlier started_at delay w v (ok (finished s), u) le p = tt
  Progress-earlier started_at delay w v (err e, u) le p = tt
  Progress-earlier started_at delay w v (panic e, u) le p = tt

  look-Progress :
      (started_at : ℕ) (delay : Duration) (h : H) (w : World B) (r : Result (Option Snapshot))
      → started_at ≤ C.now w.state
      → Progress started_at delay w
          (continue r (look fetch task_id (some timeout) before_sleep started_at delay h) w)
  unfolding look
  look-Progress started_at delay h w (ok none) begun = tt
  look-Progress started_at delay h w (ok (some s)) begun = elim (Bool-cases (is_terminal s)) [
    | inl done ↦ rw done tt
    | inr open_ ↦ rw open_ (pause-Progress started_at delay h w begun)
  ]
  look-Progress started_at delay h w (err e) begun = tt
  look-Progress started_at delay h w (panic e) begun = tt

  round-Progress :
      (started_at : ℕ) (delay : Duration) (h : H) (w : World B)
      → started_at ≤ C.now w.state
      → Progress started_at delay w
          (round fetch task_id (some timeout) before_sleep started_at delay h w)
  unfolding round
  round-Progress started_at delay h w begun =
      Progress-earlier started_at delay w (fetch w).1 _ (fetch_later w)
        (look-Progress started_at delay h (fetch w).1 (fetch w).0 (omega (arith, fetch_later w)))

  abbrev Ends : Option (Result Snapshot × World B) → Type 0
  Ends o = (r : Result Snapshot × World B) × (o ≡ some r)

  next_turn-Ends :
      (started_at : ℕ) (delay : Duration) (w : World B)
      (go : H → World B → Option (Result Snapshot × World B)) (r : Result (Turn H) × World B)
      → ((h : H) (v : World B) → Progress started_at delay w (ok (again h), v) → Ends (go h v))
      → Progress started_at delay w r
      → Ends (next_turn fetch task_id (some timeout) before_sleep go r)
  next_turn-Ends started_at delay w go (ok (finished s), v) ends p = ((ok s, v), refl)
  next_turn-Ends started_at delay w go (ok (again h), v) ends p = ends h v p
  next_turn-Ends started_at delay w go (err e, v) ends p = ((err e, v), refl)
  next_turn-Ends started_at delay w go (panic e, v) ends p = ((panic e, v), refl)

  poll-Ends :
      (fuel started_at : ℕ) (delay : Duration) (h : H) (w : World B)
      → initial_task_result_backoff ≤ delay
      → started_at ≤ C.now w.state
      → started_at + timeout ≤ C.now w.state + fuel * initial_task_result_backoff
      → Ends (poll fetch task_id (some timeout) before_sleep (suc fuel) started_at delay h w)
  unfolding poll
  poll-Ends zero started_at delay h w least begun time =
      next_turn-Ends started_at delay w _ _ (λ h' v p. absurd (omega arith))
        (unfold round in round-Progress started_at delay h w begun)
  poll-Ends (suc fuel) started_at delay h w least begun time =
      next_turn-Ends started_at delay w _ _
        (λ h' v p.
          poll-Ends fuel started_at (next_task_result_backoff delay) h' v
            (next_task_result_backoff_bounds delay least).0 (omega arith) (omega arith))
        (unfold round in round-Progress started_at delay h w begun)

  -- With a timeout and a clock that no call sets back, the wait for a task's result ends after at
  -- most one round for each 50 ms of the timeout and one more, whatever the database answers.
  pub await_task_result_with_backoff_ends :
      (fuel : ℕ) (h : H) (w : World B)
      → timeout ≤ fuel * initial_task_result_backoff
      → (r : Result Snapshot × World B) × (await_task_result_with_backoff fetch task_id
            (some timeout)
            before_sleep
            (suc fuel)
            h
            w
          ≡ some r)
  unfolding await_task_result_with_backoff
  await_task_result_with_backoff_ends fuel h w enough =
      let (t, s) = B.instant w.state in
      poll-Ends fuel t initial_task_result_backoff h (record w { state = s }) (omega arith)
        (C.goes_on w.state) (omega (arith, C.goes_on w.state))
