-- ===== src/Worker/Invariant.antt =====
-- What holds at every await of the worker's loop.
use absurd_rust_sdk.Base.{ℕ, zero, ◌+◌, ◌≤◌, List, [], ◌∷◌, All, arith}
use absurd_rust_sdk.Worker.{
  Phase, draining, claiming, Input, none_joined, claimed, State, start, after_drain, dispatch, step,
  worker_loop,
}

module _ (concurrency batch_size : ℕ) where
  -- A claim asks for at least one task and leaves no more than the concurrency running.
  abbrev pub PhaseInv : Phase → ℕ → Type 0
  PhaseInv (claiming n) running = (1 ≤ n) × (running + n ≤ concurrency)
  PhaseInv _ running = Unit

  pub record Inv (s : State) : Type 0 where
    pub bounded : s.running ≤ concurrency
    pub in_phase : PhaseInv s.phase s.running
    pub requested : All (λ n. (1 ≤ n) × (n ≤ concurrency)) s.requests

  -- The database gives no more tasks than were asked for.
  abbrev pub Obeys : Phase → Input → Type 0
  Obeys (claiming n) (claimed k) = k ≤ n
  Obeys _ _ = Unit

  abbrev pub AllObey : State → List Input → Type 0
  AllObey s [] = Unit
  AllObey s (i ∷ is) = Obeys s.phase i × AllObey (step concurrency batch_size s i) is

  module _ (batch_pos : 1 ≤ batch_size) where
    after_drain-Inv : (s : State) → Inv s → Inv (after_drain concurrency batch_size s)
    unfolding after_drain
    after_drain-Inv s h = ground arith

    dispatch-Inv :
        (p : Phase) (i : Input) (s : State)
        → PhaseInv p s.running
        → Obeys p i
        → Inv s
        → Inv (dispatch concurrency batch_size p i s)
    unfolding dispatch
    dispatch-Inv draining none_joined s hp o h = after_drain-Inv s h
    dispatch-Inv (claiming n) (claimed zero) s hp o h = ground arith
    dispatch-Inv _ _ s hp o h = ground arith

    pub step-Inv :
        (s : State) (i : Input) → Obeys s.phase i → Inv s → Inv (step concurrency batch_size s i)
    unfolding step
    step-Inv s i o h = dispatch-Inv s.phase i s h.in_phase o h

    worker_loop-Inv :
        (is : List Input) (s : State)
        → AllObey s is
        → Inv s
        → Inv (worker_loop concurrency batch_size s is)
    unfolding worker_loop
    worker_loop-Inv [] s o h = h
    worker_loop-Inv (i ∷ is) s o h = worker_loop-Inv is _ o.1 (step-Inv s i o.0 h)

    -- If the batch size is at least one and no claim gives more tasks than it asked for, then
    -- whatever else happens and in whatever order, the worker never runs more tasks than its
    -- concurrency, and each of its claims asked for at least one task and for no more than the
    -- concurrency.
    pub worker_loop_bounded :
        (is : List Input)
        → AllObey start is
        → let s = worker_loop concurrency batch_size start is in
          (s.running ≤ concurrency) × All (λ n. (1 ≤ n) × (n ≤ concurrency)) s.requests
    worker_loop_bounded is o =
        let h =
          worker_loop-Inv is start o
            (record { bounded = omega arith; in_phase = tt; requested = tt }) in
        (h.bounded, h.requested)
