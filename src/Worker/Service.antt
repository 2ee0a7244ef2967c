-- ===== src/Worker/Service.antt =====
-- What a worker is to its user: a service that takes tasks, at most `limit` at a time, finishes each
-- one, and returns when it has been told to stop. The worker's loop refines it.
use absurd_rust_sdk.Base.{
  ℕ, suc, zero, ◌+◌, ◌-◌, ◌≤◌, ◌≡◌, refl, ap, inl, inr, Bool, List, [], ◌∷◌, ◌++◌, arith,
  Bool-cases, ◌==◌, ◌||◌,
}
use absurd_rust_sdk.Error.{JoinError, Result, ok, err, join}
use absurd_rust_sdk.Worker.{
  TaskEnd, succeeded, failed, broken, Phase, draining, waiting_capacity, claiming, waiting_poll,
  closing, stopped, Input, joined, none_joined, changed, timer, claimed, claim_failed, State, start,
  after_drain, join_one, report_task_result, on_change, dispatch, step, worker_loop,
}
use absurd_rust_sdk.Worker.Invariant.{Inv, PhaseInv, Obeys, AllObey, step-Inv}

pub data Stage : Type 0 where
  serving : Stage
  leaving : Stage
  returned : Result (Unit {0}) → Stage

pub record Service : Type 0 where
  pub active : ℕ
  pub stage : Stage

abbrev IsLive : Stage → Type 0
IsLive (returned r) = ⊥
IsLive _ = Unit

-- The steps that the user of a worker can tell apart.
pub data Serve (limit : ℕ) (s t : Service) : Type 0 where
  rest : t ≡ s → Serve limit s t
  take :
      (n : ℕ)
      → s.stage ≡ serving
      → 1 ≤ n
      → s.active + n ≤ limit
      → t ≡ record s { active = s.active + n }
      → Serve limit s t
  finish :
      (n : ℕ) → IsLive s.stage → s.active ≡ suc n → t ≡ record s { active = n } → Serve limit s t
  leave : s.stage ≡ serving → t ≡ record s { stage = leaving } → Serve limit s t
  return :
      s.stage ≡ leaving → s.active ≡ 0 → t ≡ record s { stage = returned (ok tt) } → Serve limit s t
  -- the executor of a task was aborted or panicked
  give_up :
      (j : JoinError)
      → IsLive s.stage
      → 1 ≤ s.active
      → t ≡ record { active = 0; stage = returned (err (join j)) }
      → Serve limit s t

pub data Serves (limit : ℕ) (s : Service) : Service → Type 0 where
  here : Serves limit s s
  later : {t u : Service} → Serves limit s t → Serve limit t u → Serves limit s u

abbrev stage_of : Phase → Stage
stage_of closing = leaving
stage_of (stopped r) = returned r
stage_of _ = serving

abbrev pub view : State → Service
view s = record { active = s.running; stage = stage_of s.phase }

module _ (concurrency batch_size : ℕ) where
  abbrev after : Phase → Input → State → State
  after p i s = dispatch concurrency batch_size p i s

  abbrev Steps : State → State → Type 0
  Steps s t = Serve concurrency (view s) (view t)

  one_less :
      (p next : Phase) (s : State) (n : ℕ)
      → s.phase ≡ p
      → stage_of next ≡ stage_of p
      → s.running ≡ suc n
      → (record { active = s.running - 1; stage = stage_of next }) ≡ record (view s) { active = n }
  one_less p next s n e same one =
      rw (same, e, one) (ap (λ k. record { active = k; stage = stage_of p }) (omega arith))

  report-Serve :
      (e : TaskEnd) (p next : Phase) (s : State) (n : ℕ)
      → s.phase ≡ p
      → IsLive (stage_of p)
      → stage_of next ≡ stage_of p
      → s.running ≡ suc n
      → Steps s (report_task_result concurrency batch_size e next s)
  unfolding report_task_result
  report-Serve succeeded p next s n e live same one =
      finish n (rw e live) one (one_less p next s n e same one)
  report-Serve (failed x) p next s n e live same one =
      finish n (rw e live) one (one_less p next s n e same one)
  report-Serve (broken j) p next s n e live same one = give_up j (rw e live) (omega arith) refl

  join_one-Serve :
      (e : TaskEnd) (p next : Phase) (s : State)
      → s.phase ≡ p
      → IsLive (stage_of p)
      → stage_of next ≡ stage_of p
      → Steps s (join_one concurrency batch_size e next s)
  unfolding join_one
  join_one-Serve e p next s h live same = elim (Bool-cases (s.running == 0)) [
    | inl none ↦ rw none (rest refl)
    | inr some ↦ rw some (report-Serve e p next s (s.running - 1) h live same (ground arith))
  ]

  on_change-Serve :
      (dropped : Bool) (p : Phase) (s : State)
      → s.phase ≡ p
      → stage_of p ≡ serving
      → Steps s (on_change concurrency batch_size dropped s)
  unfolding on_change
  on_change-Serve dropped p s e open_ = elim (Bool-cases (dropped || s.shutdown)) [
    | inl told ↦ rw told (leave (rw e open_) refl)
    | inr not_told ↦ rw not_told (rest (rw (e, open_) refl))
  ]

  after_drain-Serve :
      (s : State) → s.phase ≡ draining → Steps s (after_drain concurrency batch_size s)
  unfolding after_drain
  after_drain-Serve s e = elim (Bool-cases s.shutdown) [
    | inl told ↦ rw told (leave (rw e refl) refl)
    | inr not_told ↦ elim (Bool-cases (concurrency - s.running == 0)) [
      | inl full ↦ rw (not_told, full) (rest (rw e refl))
      | inr free ↦ rw (not_told, free) (rest (rw e refl))
    ]
  ]

  dispatch-Serve :
      (p : Phase) (i : Input) (s : State)
      → s.phase ≡ p
      → PhaseInv concurrency batch_size p s.running
      → Obeys concurrency batch_size p i
      → Steps s (after p i s)
  unfolding dispatch
  dispatch-Serve draining (joined x) s e h o = join_one-Serve x draining draining s e tt refl
  dispatch-Serve draining none_joined s e h o = after_drain-Serve s e
  dispatch-Serve waiting_capacity (changed d) s e h o = on_change-Serve d waiting_capacity s e refl
  dispatch-Serve waiting_capacity (joined x) s e h o =
      join_one-Serve x waiting_capacity draining s e tt refl
  dispatch-Serve (claiming n) (claimed zero) s e h o = rest (rw e refl)
  dispatch-Serve (claiming n) (claimed (suc k)) s e h o =
      take (suc k) (rw e refl) (omega arith) (omega arith) (rw e refl)
  dispatch-Serve (claiming n) (claim_failed x) s e h o = rest (rw e refl)
  dispatch-Serve waiting_poll (changed d) s e h o = on_change-Serve d waiting_poll s e refl
  dispatch-Serve waiting_poll timer s e h o = rest (rw e refl)
  dispatch-Serve waiting_poll (joined x) s e h o =
      join_one-Serve x waiting_poll draining s e tt refl
  dispatch-Serve closing (joined x) s e h o = join_one-Serve x closing closing s e tt refl
  dispatch-Serve closing none_joined s e h o = elim (Bool-cases (s.running == 0)) [
    | inl empty ↦ rw empty (return (rw e refl) (ground arith) refl)
    | inr some ↦ rw some (rest refl)
  ]
  dispatch-Serve (stopped r) (joined x) s e h o = rest refl
  dispatch-Serve _ _ s e h o = rest refl

  step-Serve :
      (s : State) (i : Input)
      → Inv concurrency batch_size s
      → Obeys concurrency batch_size s.phase i
      → Steps s (step concurrency batch_size s i)
  unfolding step
  step-Serve s i v o = dispatch-Serve s.phase i s refl v.in_phase o

  run-Serves :
      (batch_pos : 1 ≤ batch_size) (is : List Input) (s : State) (from : Service)
      → Serves concurrency from (view s)
      → Inv concurrency batch_size s
      → AllObey concurrency batch_size s is
      → Serves concurrency from (view (worker_loop concurrency batch_size s is))
  unfolding worker_loop
  run-Serves batch_pos [] s from r v o = r
  run-Serves batch_pos (i ∷ is) s from r v o =
      run-Serves batch_pos is (step concurrency batch_size s i) from
        (later r (step-Serve s i v o.0)) (step-Inv concurrency batch_size batch_pos s i o.0 v) o.1

  between-Serves :
      (batch_pos : 1 ≤ batch_size) (before later_on : List Input) (s : State)
      → Inv concurrency batch_size s
      → AllObey concurrency batch_size s (before ++ later_on)
      → Serves concurrency
          (view (worker_loop concurrency batch_size s before))
          (view (worker_loop concurrency batch_size s (before ++ later_on)))
  unfolding worker_loop
  between-Serves batch_pos [] later_on s v o = run-Serves batch_pos later_on s (view s) here v o
  between-Serves batch_pos (i ∷ before) later_on s v o =
      between-Serves batch_pos before later_on (step concurrency batch_size s i)
        (step-Inv concurrency batch_size batch_pos s i o.0 v) o.1

  -- Between any two moments the worker's loop does what such a service may, with its concurrency as
  -- the limit, whatever its awaits give and in whatever order, if the batch size is at least one and
  -- no claim gives more tasks than it asked for.
  pub worker_loop-Serves :
      (before later_on : List Input)
      → 1 ≤ batch_size
      → AllObey concurrency batch_size start (before ++ later_on)
      → Serves concurrency
          (view (worker_loop concurrency batch_size start before))
          (view (worker_loop concurrency batch_size start (before ++ later_on)))
  worker_loop-Serves before later_on batch_pos o =
      between-Serves batch_pos before later_on start
        (record { bounded = omega arith; in_phase = tt; requested = tt }) o
