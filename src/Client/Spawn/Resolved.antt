-- ===== src/Client/Spawn/Resolved.antt =====
-- What a spawn is given.
use absurd_rust_sdk.Base.{
  ◌≡◌, refl, ◌∙◌, subst, String, false, Option, none, some, List, [], ◌∷◌, and_then, unwrap_or,
  eq_iff, arith,
}
use absurd_rust_sdk.Error.{Result, ok, err, panic, ok_injective, ◌>>=◌}
use absurd_rust_sdk.Int.{ℤ, pos, ltb_ℤ}
use absurd_rust_sdk.Types.Queue.{validate_queue_name}
use absurd_rust_sdk.Types.Retry.{CancellationPolicy}
use absurd_rust_sdk.Types.Task.{TaskOptions, SpawnOptions}
use absurd_rust_sdk.Backend.{Backend}
use absurd_rust_sdk.Client.State.{RegisteredTask, Client}
use absurd_rust_sdk.Client.Spawn.{
  task_queue, registered_queue, registration_queue, resolve_queue, effective_max_attempts,
  effective_cancellation, enough_attempts, resolve_with,
}

-- The first of a list of choices that is there.
pub first_given {ℓ} : {A : Type ℓ} → List (Option A) → Option A
first_given [] = none
first_given (none ∷ os) = first_given os
first_given (some a ∷ os) = some a

-- A queue that is asked for agrees with the queue that is used.
abbrev pub Agrees : Option String → String → Type 0
Agrees none q = Unit
Agrees (some asked) q = asked ≡ q

-- The queue of a registered task is the registration's, and whoever asks for one agrees. The queue
-- of any other task is the first that is given.
abbrev pub QueueIs : Option String → Option String → Option String → String → Type 0
QueueIs (some registered) requested typed q = (q ≡ registered) × Agrees requested q × Agrees typed q
QueueIs none requested typed q = first_given (requested ∷ typed ∷ []) ≡ some q

resolve_queue-QueueIs :
    (name : String) (registered requested typed : Option String) (q : String)
    → resolve_queue name registered requested typed ≡ ok q
    → QueueIs registered requested typed q
unfolding resolve_queue registered_queue first_given
resolve_queue-QueueIs name none none none q e = ground arith
resolve_queue-QueueIs name none none (some t) q e = ground arith
resolve_queue-QueueIs name none (some r) typed q e = ground arith
resolve_queue-QueueIs name (some p) none none q e = ground arith
resolve_queue-QueueIs name (some p) none (some t) q e = ground (arith, eq_iff t p)
resolve_queue-QueueIs name (some p) (some r) none q e = ground (arith, eq_iff r p)
resolve_queue-QueueIs name (some p) (some r) (some t) q e = ground (arith, eq_iff r p, eq_iff t p)

pub bind_ok :
    {A B : Type 0} (m : Result A) (k : A → Result B) (b : B)
    → (m >>= k) ≡ ok b
    → (a : A) × (m ≡ ok a) × (k a ≡ ok b)
bind_ok (ok a) k b e = (a, refl, e)
bind_ok (err x) k b e = ground arith
bind_ok (panic x) k b e = ground arith

enough_attempts_ok : (n m : ℤ) → enough_attempts n ≡ ok m → (m ≡ n) × (ltb_ℤ m (pos 1) ≡ false)
enough_attempts_ok n m e = ground arith

module _ {B : Backend} where
  effective_max_attempts_first :
      (c : Client B) (r : Option (RegisteredTask B)) (t : Option TaskOptions) (o : SpawnOptions)
      → effective_max_attempts c r t o
        ≡ unwrap_or
            (first_given (
              o.max_attempts
              ∷ and_then r (λ reg. reg.default_max_attempts)
              ∷ and_then t (λ task. task.default_max_attempts)
              ∷ []))
            c.default_max_attempts
  unfolding effective_max_attempts first_given
  effective_max_attempts_first c r t o = ground arith

  effective_cancellation_first :
      (r : Option (RegisteredTask B)) (t : Option TaskOptions) (o : SpawnOptions)
      → effective_cancellation r t o
        ≡ first_given (
            o.cancellation
            ∷ and_then r (λ reg. reg.default_cancellation)
            ∷ and_then t (λ task. task.default_cancellation)
            ∷ [])
  unfolding effective_cancellation first_given
  effective_cancellation_first r t o = ground arith

  -- A queue, a number of attempts and a cancellation policy that suit a spawn.
  abbrev pub Fits :
      Client B
      → Option (RegisteredTask B)
      → Option TaskOptions
      → SpawnOptions
      → String × ℤ × Option CancellationPolicy
      → Type 0
  Fits c r t o (q, n, p) =
      QueueIs (registration_queue r) o.queue (task_queue t) q
      × (validate_queue_name q ≡ ok tt)
      × (ltb_ℤ n (pos 1) ≡ false)
      × (n
          ≡ unwrap_or
              (first_given (
                o.max_attempts
                ∷ and_then r (λ reg. reg.default_max_attempts)
                ∷ and_then t (λ task. task.default_max_attempts)
                ∷ []))
              c.default_max_attempts)
      × (p
          ≡ first_given (
              o.cancellation
              ∷ and_then r (λ reg. reg.default_cancellation)
              ∷ and_then t (λ task. task.default_cancellation)
              ∷ []))

  -- A spawn that is accepted goes to a valid queue, which is the registered one where the task is
  -- registered, and no queue that was asked for differs. It has at least one attempt. Attempts and
  -- cancellation are the first given of the spawn's, the registration's and the typed task's, and
  -- for the attempts the client's at last.
  pub resolve_with-Fits :
      (c : Client B) (r : Option (RegisteredTask B)) (name : String) (t : Option TaskOptions)
      (o : SpawnOptions) (x : String × ℤ × Option CancellationPolicy)
      → resolve_with c r name t o ≡ ok x
      → Fits c r t o x
  unfolding resolve_with
  resolve_with-Fits c r name t o x e =
      let m = effective_max_attempts c r t o in
      let p = effective_cancellation r t o in
      let (q, found, rest) =
        bind_ok (resolve_queue name (registration_queue r) o.queue (task_queue t))
          (λ q. validate_queue_name q >>= λ _. enough_attempts m >>= λ n. ok (q, n, p)) x e in
      let (u, valid, rest') =
        bind_ok (validate_queue_name q) (λ _. enough_attempts m >>= λ n. ok (q, n, p)) x rest in
      let (n, enough, last) = bind_ok (enough_attempts m) (λ n. ok (q, n, p)) x rest' in
      let (same, least) = enough_attempts_ok m n enough in
      subst (Fits c r t o) (ok_injective last) (
        resolve_queue-QueueIs name (registration_queue r) o.queue (task_queue t) q found,
        valid,
        least,
        same ∙ effective_max_attempts_first c r t o,
        effective_cancellation_first r t o,
      )
