-- ===== src/Worker/Shutdown.antt =====
-- How the worker's loop ends.
use absurd_rust_sdk.Base.{ℕ, ◌≡◌, refl, List, [], ◌∷◌, subst, ◌∙◌, arith}
use absurd_rust_sdk.Error.{Result}
use absurd_rust_sdk.Worker.{
  TaskEnd, broken, Phase, draining, waiting_capacity, claiming, waiting_poll, closing, stopped,
  Input, joined, none_joined, close, State, start, after_drain, dispatch, worker_loop,
}

abbrev pub IsLeaving : Phase → Type 0
IsLeaving closing = Unit
IsLeaving (stopped _) = Unit
IsLeaving _ = ⊥

-- A task that ends by itself, with or without an error.
abbrev pub EndsAlone : TaskEnd → Type 0
EndsAlone (broken _) = ⊥
EndsAlone _ = Unit

-- A stopped worker has no task in its join set.
abbrev pub StopInv : Phase → ℕ → Type 0
StopInv (stopped _) running = running ≡ 0
StopInv _ running = Unit

module _ (concurrency batch_size : ℕ) where
  abbrev next : Phase → Input → State → State
  next p i s = dispatch concurrency batch_size p i s

  dispatch-IsLeaving :
      (p : Phase) (i : Input) (s : State)
      → s.phase ≡ p
      → IsLeaving p
      → IsLeaving (next p i s).phase × ((next p i s).requests ≡ s.requests)
  unfolding dispatch
  dispatch-IsLeaving draining i s e h = absurd h
  dispatch-IsLeaving waiting_capacity i s e h = absurd h
  dispatch-IsLeaving (claiming n) i s e h = absurd h
  dispatch-IsLeaving waiting_poll i s e h = absurd h
  dispatch-IsLeaving closing (joined x) s e h = ground arith
  dispatch-IsLeaving closing _ s e h = ground arith
  dispatch-IsLeaving (stopped r) (joined x) s e h = ground arith
  dispatch-IsLeaving (stopped r) _ s e h = ground arith

  -- Once the loop has been left no input makes the worker claim tasks again.
  pub worker_loop-IsLeaving :
      (is : List Input) (s : State)
      → IsLeaving s.phase
      → IsLeaving (worker_loop concurrency batch_size s is).phase
        × ((worker_loop concurrency batch_size s is).requests ≡ s.requests)
  unfolding worker_loop
  worker_loop-IsLeaving [] s h = (h, refl)
  worker_loop-IsLeaving (i ∷ is) s h =
      let (l, e) = dispatch-IsLeaving s.phase i s refl h in
      let (l', e') = worker_loop-IsLeaving is (next s.phase i s) l in (l', e' ∙ e)

  dispatch-StopInv :
      (p : Phase) (i : Input) (s : State)
      → s.phase ≡ p
      → StopInv p s.running
      → StopInv (next p i s).phase (next p i s).running
  unfolding dispatch after_drain
  dispatch-StopInv draining none_joined s e h = ground arith
  dispatch-StopInv draining _ s e h = ground arith
  dispatch-StopInv _ _ s e h = ground arith

  worker_loop-StopInv :
      (is : List Input) (s : State)
      → StopInv s.phase s.running
      → let t = worker_loop concurrency batch_size s is in StopInv t.phase t.running
  unfolding worker_loop
  worker_loop-StopInv [] s h = h
  worker_loop-StopInv (i ∷ is) s h =
      worker_loop-StopInv is (next s.phase i s) (dispatch-StopInv s.phase i s refl h)

  -- When the worker's loop has returned, no task that it spawned is still in its join set.
  pub worker_loop_stopped :
      (is : List Input) (r : Result (Unit {0}))
      → (worker_loop concurrency batch_size start is).phase ≡ stopped r
      → (worker_loop concurrency batch_size start is).running ≡ 0
  worker_loop_stopped is r e =
      subst (λ p. StopInv p (worker_loop concurrency batch_size start is).running) e
        (worker_loop-StopInv is start tt)

  abbrev told : State → State
  told s = let t = next s.phase close s in next t.phase none_joined t
