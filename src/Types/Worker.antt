-- ===== src/Types/Worker.antt =====
-- Worker options of src/types.rs. `H` is the type of error handlers, which the options only carry.
pub mod Options
pub mod BatchOptions
use absurd_rust_sdk.Base.{
  ℕ, ◌≤◌, ◌⊎◌, ◌↔◌, max, ◌≡◌, String, ◌<>◌, Bool, true, Option, none, some, arith, ◌==◌, Bool-cases,
  inl, inr, unwrap_or, if◌then◌else◌,
}
use absurd_rust_sdk.Error.{PanicPayload, Error, Result, ok, err, config}
use absurd_rust_sdk.Text.{display}
use absurd_rust_sdk.Types.Duration.{
  Duration, from_secs, from_millis, duration_seconds_ceil, duration_seconds_ceil_pos,
}

pub data UnknownTaskPolicy : Type 0 where
  defer fail : UnknownTaskPolicy

pub data WorkerErrorKind : Type 0 where
  claim execution : WorkerErrorKind

-- `WorkerError`
pub record WorkerError : Type 0 where
  pub kind : WorkerErrorKind
  pub error : Error

-- `WorkerErrorHandler`: a function of the application, given by what its calls panic with, if they do.
abbrev pub WorkerErrorHandler : Type 0
WorkerErrorHandler = WorkerError → Option PanicPayload

-- The handler, if there is one, returns from every call.
abbrev pub Returns : Option WorkerErrorHandler → Type 0
Returns none = Unit
Returns (some on_error) = (e : WorkerError) → on_error e ≡ none

pub record WorkerOptions (H : Type 0) : Type 0 where
  pub worker_id : Option String
  pub claim_timeout : Duration
  pub concurrency : ℕ
  pub batch_size : Option ℕ
  pub poll_interval : Duration
  pub unknown_task_policy : UnknownTaskPolicy
  pub on_error : Option H
  pub fatal_on_lease_timeout : Bool

-- `WorkerOptions::default`
abbrev pub default_worker_options : {H : Type 0} → WorkerOptions H
default_worker_options = record {
  worker_id = none;
  claim_timeout = from_secs 120;
  concurrency = 1;
  batch_size = none;
  poll_interval = from_millis 250;
  unknown_task_policy = defer;
  on_error = none;
  fatal_on_lease_timeout = true;
}

pub record NormalizedWorkerOptions (H : Type 0) : Type 0 where
  pub worker_id : String
  pub claim_timeout : Duration
  pub claim_timeout_seconds : ℕ
  pub concurrency : ℕ
  pub batch_size : ℕ
  pub poll_interval : Duration
  pub unknown_task_policy : UnknownTaskPolicy
  pub on_error : H
  pub fatal_on_lease_timeout : Bool

-- `default_worker_id`, from what the system gives for its host name and the process id.
unfoldable pub default_worker_id : Option String → ℕ → String
default_worker_id hostname pid = unwrap_or hostname "host" <> ":" <> display pid

-- The identity and the handler that stand in for missing ones are arguments.
unfoldable pub normalized :
    {H : Type 0} → String → H → WorkerOptions H → Result (NormalizedWorkerOptions H)
normalized default_id default_handler o =
    if o.claim_timeout == 0
    then err (config "claim timeout must be greater than zero")
    else if o.poll_interval == 0
    then err (config "poll interval must be greater than zero")
    else ok (record {
      worker_id = unwrap_or o.worker_id default_id;
      claim_timeout = o.claim_timeout;
      claim_timeout_seconds = duration_seconds_ceil o.claim_timeout;
      concurrency = max o.concurrency 1;
      batch_size = max (unwrap_or o.batch_size (max o.concurrency 1)) 1;
      poll_interval = o.poll_interval;
      unknown_task_policy = o.unknown_task_policy;
      on_error = unwrap_or o.on_error default_handler;
      fatal_on_lease_timeout = o.fatal_on_lease_timeout;
    })

-- What a worker loop relies on.
pub record IsNormal {H : Type 0} (n : NormalizedWorkerOptions H) : Type 0 where
  pub claim_timeout_pos : 1 ≤ n.claim_timeout
  pub claim_timeout_seconds_pos : 1 ≤ n.claim_timeout_seconds
  pub concurrency_pos : 1 ≤ n.concurrency
  pub batch_size_pos : 1 ≤ n.batch_size
  pub poll_interval_pos : 1 ≤ n.poll_interval

-- Accepted options are normal: every duration and every count is positive. They keep the duration
-- of the claim and have at least the concurrency that was asked for.
pub normalized-IsNormal :
    {H : Type 0} (id : String) (h : H) (o : WorkerOptions H) (n : NormalizedWorkerOptions H)
    → normalized id h o ≡ ok n
    → IsNormal n × (n.claim_timeout ≡ o.claim_timeout) × (n.concurrency ≡ max o.concurrency 1)
unfolding normalized
normalized-IsNormal id h o n e = ground (arith, duration_seconds_ceil_pos o.claim_timeout)

-- Options are refused exactly when a duration is zero.
pub normalized_refuses :
    {H : Type 0} (id : String) (h : H) (o : WorkerOptions H)
    → ((m : String) × (normalized id h o ≡ err (config m)))
      ↔ ((o.claim_timeout ≡ 0) ⊎ (o.poll_interval ≡ 0))
unfolding normalized
normalized_refuses id h o = (λ r. ground arith, λ z. refused z)
  where
    refused :
        (o.claim_timeout ≡ 0) ⊎ (o.poll_interval ≡ 0)
        → (m : String) × (normalized id h o ≡ err (config m))
    refused z = elim (Bool-cases (o.claim_timeout == 0)) [
      | inl p ↦ ("claim timeout must be greater than zero", rw p)
      | inr p ↦ ("poll interval must be greater than zero", ground arith)
    ]

pub record WorkBatchOptions : Type 0 where
  pub worker_id : Option String
  pub claim_timeout : Duration
  pub batch_size : ℕ
  pub unknown_task_policy : UnknownTaskPolicy

-- `WorkBatchOptions::default`
abbrev pub default_work_batch_options : WorkBatchOptions
default_work_batch_options = record {
  worker_id = some "worker";
  claim_timeout = from_secs 120;
  batch_size = 1;
  unknown_task_policy = defer;
}

unfoldable pub worker_id_value : WorkBatchOptions → String
worker_id_value o = unwrap_or o.worker_id "worker"

unfoldable pub batch_claim_timeout_seconds : WorkBatchOptions → Result ℕ
batch_claim_timeout_seconds o =
    if o.claim_timeout == 0
    then err (config "claim timeout must be greater than zero")
    else ok (duration_seconds_ceil o.claim_timeout)
