-- ===== src/Context/Lease.antt =====
-- The lease of a run in src/context.rs: what the watchdog is told, beside what the database is asked.
pub mod Kept
pub mod Operations
pub mod Sleeps
pub mod Programs
use absurd_rust_sdk.Base.{
  ◌≡◌, refl, sym, ap, ◌∙◌, subst, String, Bool, true, false, Option, none, some, List, [], ◌∷◌,
  ◌++◌,
}
use absurd_rust_sdk.Error.{Uuid, ForeignError, Result, ok, err, panic}
use absurd_rust_sdk.Json.{Json}
use absurd_rust_sdk.Types.Duration.{Duration, duration_seconds_ceil}
use absurd_rust_sdk.Backend.{
  Backend, World, Action, Call, Answer, Reply, answered, refused, Event, sql, lease, slept,
  reported, user, set_task_checkpoint_state, extend_claim, continue, pure, read_reply,
  with_connection, call, get_connection, send, call_ok,
}
use absurd_rust_sdk.Context.State.{Run, TaskContext, on_world, notify_lease_extended}

module _ (q : String) (run : Uuid) where
  -- A call that extends the run's claim by the whole seconds that hold a duration.
  abbrev pub Covers : Duration → Call → Type 0
  Covers d (set_task_checkpoint_state queue id k v run_id secs) =
      (queue ≡ q) × (run_id ≡ run) × (secs ≡ duration_seconds_ceil d)
  Covers d (extend_claim queue run_id secs) =
      (queue ≡ q) × (run_id ≡ run) × (secs ≡ duration_seconds_ceil d)
  Covers d _ = ⊥

  abbrev pub Follows : Duration → List Event → Type 0
  Follows d (sql c ∷ log) = Covers d c
  Follows d _ = ⊥

  -- Whenever the watchdog is told of a duration, the call right before extends the claim by it.
  abbrev pub Renewed : List Event → Type 0
  Renewed [] = Unit
  Renewed (lease d ∷ log) = Follows d log × Renewed log
  Renewed (sql c ∷ log) = Renewed log
  Renewed (slept d ∷ log) = Renewed log
  Renewed (reported k e ∷ log) = Renewed log
  Renewed (user ∷ log) = Renewed log

  -- A context of this run, whose claim is counted in the seconds of its timeout.
  abbrev pub OfRun : TaskContext → Type 0
  OfRun ctx =
      (ctx.queue_name ≡ q)
      × (ctx.task.run_id ≡ run)
      × (ctx.claim_timeout_seconds ≡ duration_seconds_ceil ctx.claim_timeout)

  module _ {B : Backend} (base : List Event) where
    -- What was done since then is renewed.
    abbrev pub Since : World B → Type 0
    Since w = (new : List Event) × (w.log ≡ new ++ base) × Renewed new

    abbrev pub IsLeased : Run B → Type 0
    IsLeased r = OfRun r.ctx × Since r.world

    called-Since : (c : Call) (w s : World B) → s.log ≡ sql c ∷ w.log → Since w → Since s
    called-Since c w s e (new, same, h) = (sql c ∷ new, e ∙ ap (λ log. sql c ∷ log) same, h)

    pub user-Since : (w : World B) → Since w → Since (record w { log = user ∷ w.log })
    user-Since w (new, same, h) = (user ∷ new, ap (λ log. user ∷ log) same, h)

    replied : {A : Type 0} (reply : Reply A) (w : World B) → Since w → Since (read_reply reply w).1
    replied (answered a) w h = h
    replied (refused e) w h = h

    connected :
        (c : Call) (o : Option ForeignError) (w : World B)
        → Since w
        → Since
            (continue
              (with_connection o (pure tt) w).0
              (λ (_ : Unit {0}). send c)
              (with_connection o (pure tt) w).1).1
    unfolding send
    connected c none w h =
        let (reply, s) = B.query c w.state in
        replied reply (record { state = s; log = sql c ∷ w.log })
          (called-Since c w (record { state = s; log = sql c ∷ w.log }) refl h)
    connected c (some e) w h = h

    pub call-Since : (c : Call) (w : World B) → Since w → Since (call c w).1
    unfolding call get_connection
    call-Since c w h = let (o, s) = B.connect w.state in connected c o (record w { state = s }) h

    -- A renewal that comes right after a call that covers it.
    pub renewed-Since :
        (b : Bool) (d : Duration) (c : Call) (w s : World B)
        → Covers d c
        → s.log ≡ sql c ∷ w.log
        → Since w
        → Since (notify_lease_extended b d s).1
    unfolding notify_lease_extended
    renewed-Since true d c w s covers e (new, same, h) = (
      lease d ∷ sql c ∷ new,
      ap (λ log. lease d ∷ log) (e ∙ ap (λ log. sql c ∷ log) same),
      (covers, h),
    )
    renewed-Since false d c w s covers e h = called-Since c w s e h
