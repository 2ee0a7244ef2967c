-- ===== src/TaskResult/Await/Outcome.antt =====
-- What the polling loop returns.
use absurd_rust_sdk.Base.{
  ℕ, zero, suc, ◌≡◌, subst, true, Option, none, some, inl, inr, Bool-cases, ◌⊎◌, refl, arith,
}
use absurd_rust_sdk.Error.{Uuid, Result, ok, err, panic}
use absurd_rust_sdk.Types.Duration.{Duration}
use absurd_rust_sdk.Backend.{Backend, World, Action, pure, continue, ◌>>=◌, ◌>>◌, sleep}
use absurd_rust_sdk.Json.{Json}
use absurd_rust_sdk.TaskResult.{
  Snapshot, is_terminal, is_terminal_state, state_of, is_pending, is_running, is_sleeping,
  is_completed, is_failed, is_cancelled,
}
use absurd_rust_sdk.TaskResult.Await.{
  Turn, finished, again, next_sleep_duration, pause, look, round, next_turn, poll,
  await_task_result_with_backoff,
}

-- A snapshot of a task that has ended.
abbrev pub HasEnded : Snapshot → Type 0
HasEnded s =
    ((r : Json) × (s ≡ is_completed r)) ⊎ ((f : Json) × (s ≡ is_failed f)) ⊎ (s ≡ is_cancelled)

terminal-HasEnded : (s : Snapshot) → is_terminal s ≡ true → HasEnded s
unfolding is_terminal is_terminal_state state_of
terminal-HasEnded is_pending e = ground arith
terminal-HasEnded is_running e = ground arith
terminal-HasEnded is_sleeping e = ground arith
terminal-HasEnded is_cancelled e = inr (inr refl)
terminal-HasEnded (is_completed r) e = inl (r, refl)
terminal-HasEnded (is_failed f) e = inr (inl (f, refl))

module _ {B : Backend} {H : Type 0} (fetch : Action (World B) (Option Snapshot)) (task_id : Uuid)
    (timeout : Option Duration) (before_sleep : H → Action (World B) H) where
  -- The last fetch has given a snapshot, and its task has ended.
  abbrev pub Seen : Snapshot → World B → Type 0
  Seen s w = HasEnded s × (u : World B) × (fetch u ≡ (ok (some s), w))

  abbrev Done : Result (Turn H) × World B → Type 0
  Done (ok (finished s), w) = Seen s w
  Done _ = Unit

  slept-Done :
      (d : Duration) (r : Result H × World B)
      → Done (continue r.0 (λ h'. sleep d >> pure (again h')) r.1)
  unfolding sleep
  slept-Done d (ok h, w) = tt
  slept-Done d (err e, w) = tt
  slept-Done d (panic p, w) = tt

  after_duration-Done :
      (h : H) (r : Result Duration × World B)
      → Done (
          continue r.0
            (λ sleep_for. before_sleep h >>= λ h'. sleep sleep_for >> pure (again h'))
            r.1)
  after_duration-Done h (ok d, w) = slept-Done d (before_sleep h w)
  after_duration-Done h (err e, w) = tt
  after_duration-Done h (panic p, w) = tt

  look-Done :
      (started_at : ℕ) (delay : Duration) (h : H) (u : World B)
      (r : Result (Option Snapshot) × World B)
      → fetch u ≡ r
      → Done (continue r.0 (look fetch task_id timeout before_sleep started_at delay h) r.1)
  unfolding look
  look-Done started_at delay h u (ok none, w) e = tt
  look-Done started_at delay h u (ok (some s), w) e = elim (Bool-cases (is_terminal s)) [
    | inl done ↦ rw done (terminal-HasEnded s done, u, e)
    | inr open_ ↦ rw open_ (
        unfold pause in
        after_duration-Done h (next_sleep_duration task_id started_at timeout delay w))
  ]
  look-Done started_at delay h u (err x, w) e = tt
  look-Done started_at delay h u (panic p, w) e = tt

  abbrev Terminal : Option (Result Snapshot × World B) → Type 0
  Terminal (some (ok s, w)) = Seen s w
  Terminal _ = Unit

  next_turn-Terminal :
      (go : H → World B → Option (Result Snapshot × World B)) (r : Result (Turn H) × World B)
      → ((h : H) (w : World B) → Terminal (go h w))
      → Done r
      → Terminal (next_turn fetch task_id timeout before_sleep go r)
  next_turn-Terminal go (ok (finished s), w) rest done = done
  next_turn-Terminal go (ok (again h), w) rest done = rest h w
  next_turn-Terminal go (err e, w) rest done = tt
  next_turn-Terminal go (panic p, w) rest done = tt

  poll-Terminal :
      (fuel started_at : ℕ) (delay : Duration) (h : H) (w : World B)
      → Terminal (poll fetch task_id timeout before_sleep fuel started_at delay h w)
  unfolding poll
  poll-Terminal zero started_at delay h w = tt
  poll-Terminal (suc fuel) started_at delay h w =
      next_turn-Terminal _ _ (λ h' v. poll-Terminal fuel started_at _ h' v)
        (unfold round in look-Done started_at delay h w (fetch w) refl)

  -- A snapshot that the wait returns is completed, failed or cancelled, and it is what the last
  -- thing done, a fetch, has given.
  pub await_task_result_with_backoff_terminal :
      (fuel : ℕ) (h : H) (w v : World B) (s : Snapshot)
      → await_task_result_with_backoff fetch task_id timeout before_sleep fuel h w ≡ some (ok s, v)
      → Seen s v
  unfolding await_task_result_with_backoff
  await_task_result_with_backoff_terminal fuel h w v s e =
      subst Terminal e
        (let (t, s') = B.instant w.state in poll-Terminal fuel t _ h (record w { state = s' }))
