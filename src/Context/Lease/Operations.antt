-- ===== src/Context/Lease/Operations.antt =====
-- A step and an event tell the watchdog of a lease only right after asking the database for it. A
-- step's function has no context, so that it tells the watchdog nothing.
use absurd_rust_sdk.Base.{
  ◌≡◌, sym, ap, ◌∙◌, if◌then◌else◌, String, Bool, true, false, Option, none, some, List, [], ◌∷◌,
  ◌++◌, Bool-cases, inl, inr, contains, append_assoc,
}
use absurd_rust_sdk.Error.{Uuid}
use absurd_rust_sdk.Json.{Json}
use absurd_rust_sdk.Text.{is_empty, trim}
use absurd_rust_sdk.Types.Duration.{Duration}
use absurd_rust_sdk.Backend.{
  carried_on, Backend, Codec, World, Action, Event, sql, lease, slept, reported, user, continue,
  pure, lift, modify, await_event, call, note, ◌>>=◌, ◌>>◌,
}
use absurd_rust_sdk.Context.State.{
  next_checkpoint_name, Run, on_world, cache_value, lookup_checkpoint, persist_checkpoint,
}
use absurd_rust_sdk.Context.Step.{
  StepHandle, handle, begin_step, complete_step, step, into_cached_state,
}
use absurd_rust_sdk.Context.Step.Replay.{checkpoint_of, named}
use absurd_rust_sdk.Context.Event.{
  report_timeout, AwaitEventOptions, map_ceil, woken_by_timeout, read_event_row, query_event,
  fresh_event, event_value, await_event_with_options,
}
use absurd_rust_sdk.Context.Event.Replayed.{event_step}
use absurd_rust_sdk.Context.Lease.{Renewed, Since, IsLeased, user-Since}
use absurd_rust_sdk.Context.Lease.Kept.{
  on_call-IsLeased, lookup_checkpoint-IsLeased, persist_checkpoint-IsLeased,
}

-- Nothing is said to the watchdog.
abbrev pub Silent : List Event → Type 0
Silent [] = Unit
Silent (lease d ∷ log) = ⊥
Silent (sql c ∷ log) = Silent log
Silent (slept d ∷ log) = Silent log
Silent (reported k e ∷ log) = Silent log
Silent (user ∷ log) = Silent log

-- An action that only adds to the log, and says nothing to the watchdog.
abbrev pub IsSilent : {B : Backend} {T : Type 0} → Action (World B) T → Type 0
IsSilent {B} f = (w : World B) → (new : List Event) × ((f w).1.log ≡ new ++ w.log) × Silent new

pub Renewed-Silent :
    (q : String) (run : Uuid) (new old : List Event)
    → Silent new
    → Renewed q run old
    → Renewed q run (new ++ old)
Renewed-Silent q run [] old s h = h
Renewed-Silent q run (lease d ∷ new) old s h = absurd s
Renewed-Silent q run (sql c ∷ new) old s h = Renewed-Silent q run new old s h
Renewed-Silent q run (slept d ∷ new) old s h = Renewed-Silent q run new old s h
Renewed-Silent q run (reported k e ∷ new) old s h = Renewed-Silent q run new old s h
Renewed-Silent q run (user ∷ new) old s h = Renewed-Silent q run new old s h

module _ (q : String) (run : Uuid) {B : Backend} (base : List Event) where
  abbrev Leased : Run B → Type 0
  Leased r = IsLeased q run base r

  pub Silent-Since :
      (new : List Event) (w s : World B)
      → s.log ≡ new ++ w.log
      → Silent new
      → Since q run base w
      → Since q run base s
  Silent-Since new w s e quiet (before, same, h) = (
    new ++ before,
    e ∙ ap (λ log. new ++ log) same ∙ sym (append_assoc new before base),
    Renewed-Silent q run new before quiet h,
  )

  module _ {T : Type 0} (c : Codec T) where
    handle-IsLeased :
        (name k : String) (o : Option Json) (r : Run B) → Leased r → Leased (handle c name k o r).1
    handle-IsLeased name k none r h = h
    handle-IsLeased name k (some v) r h = carried_on Leased (c.from_value v, r) _ h (λ t s g. g)

    begin_step-IsLeased : (name : String) (r : Run B) → Leased r → Leased (begin_step c name r).1
    unfolding begin_step next_checkpoint_name
    begin_step-IsLeased name r h =
        let k = checkpoint_of name r in
        let r' = named name r in
        carried_on Leased (lookup_checkpoint k r') (handle c name k)
          (lookup_checkpoint-IsLeased q run base k r' h) λ o s g. handle-IsLeased name k o s g

    complete_step-IsLeased :
        (x : StepHandle T) (t : T) (r : Run B) → Leased r → Leased (complete_step c x t r).1
    unfolding complete_step
    complete_step-IsLeased x t r h = elim (Bool-cases x.done) [
      | inl done ↦ rw done h
      | inr fresh ↦ rw fresh (
          carried_on Leased (c.to_value t, r)
            (λ v. persist_checkpoint x.checkpoint_name v >> pure t) h
            λ v s g.
              carried_on Leased (persist_checkpoint x.checkpoint_name v s) (λ _. pure t)
                (persist_checkpoint-IsLeased q run base x.checkpoint_name v s g) (λ u w k. k))
    ]

    module _ (f : Action (World B) T) (silent : IsSilent f) where
      computed :
          (x : StepHandle T) (r : Run B)
          → Leased r
          → Leased
              (continue
                (f (record (r.world) { log = user ∷ r.world.log })).0
                (complete_step c x)
                (record r { world = (f (record (r.world) { log = user ∷ r.world.log })).1 })).1
      computed x r (of_run, since) =
          let w = record (r.world) { log = user ∷ r.world.log } in
          let (new, e, quiet) = silent w in
          carried_on Leased ((f w).0, record r { world = (f w).1 }) (complete_step c x)
            (of_run, Silent-Since new w (f w).1 e quiet (user-Since q run base r.world since))
            λ t s g. complete_step-IsLeased x t s g

      decided :
          (done : Bool) (x : StepHandle T) (r : Run B)
          → Leased r
          → Leased
              ((if done
                  then lift (into_cached_state x)
                  else (on_world (note user) >>= λ _. on_world f >>= λ t. complete_step c x t))
                r).1
      decided true x r h = h
      decided false x r h = computed x r h

      pub step-IsLeased : (name : String) (r : Run B) → Leased r → Leased (step c name f r).1
      unfolding step
      step-IsLeased name r h =
          carried_on Leased (begin_step c name r) _ (begin_step-IsLeased name r h)
            λ x s g. decided x.done x s g

  row-IsLeased :
      (event : String) (row : Bool × Option Json) (r : Run B)
      → Leased r
      → Leased (read_event_row event row r).1
  unfolding read_event_row
  row-IsLeased event (true, p) r h = h
  row-IsLeased event (false, some v) r h = h
  row-IsLeased event (false, none) r h =
      elim (Bool-cases (contains event r.ctx.reported_timeouts)) [
        | inl again ↦ rw again h
        | inr first ↦ rw first h
      ]

  query_event-IsLeased :
      (event k : String) (timeout : Option Duration) (r : Run B)
      → Leased r
      → Leased (query_event event k timeout r).1
  unfolding query_event
  query_event-IsLeased event k timeout r h =
      let c =
        await_event r.ctx.queue_name r.ctx.task.task_id r.ctx.task.run_id k event
          (map_ceil timeout) in
      carried_on Leased (on_world (call c) r) (read_event_row event)
        (on_call-IsLeased q run base c r h) (λ row s g. row-IsLeased event row s g)

  module _ {T : Type 0} (c : Codec T) where
    fresh_event-IsLeased :
        (event k : String) (timeout : Option Duration) (r : Run B)
        → Leased r
        → Leased (fresh_event c event k timeout r).1
    unfolding fresh_event report_timeout
    fresh_event-IsLeased event k timeout r h = elim (Bool-cases (woken_by_timeout event r.ctx)) [
      | inl late ↦ rw late h
      | inr asks ↦ rw asks (
          carried_on Leased (query_event event k timeout r)
            (λ v. modify (cache_value k v) >> lift (c.from_value v))
            (query_event-IsLeased event k timeout r h) (λ v s g. g))
    ]

    event_value-IsLeased :
        (event k : String) (timeout : Option Duration) (o : Option Json) (r : Run B)
        → Leased r
        → Leased (event_value c event k timeout o r).1
    event_value-IsLeased event k timeout none r h = fresh_event-IsLeased event k timeout r h
    event_value-IsLeased event k timeout (some v) r h = h

    pub await_event-IsLeased :
        (event : String) (o : AwaitEventOptions) (r : Run B)
        → Leased r
        → Leased (await_event_with_options c event o r).1
    unfolding await_event_with_options next_checkpoint_name
    await_event-IsLeased event o r h =
        let name = event_step event o in
        let k = checkpoint_of name r in
        let from = named name r in
        elim (Bool-cases (is_empty (trim event))) [
          | inl blank ↦ rw blank h
          | inr filled ↦ rw filled (
              carried_on Leased (lookup_checkpoint k from) (event_value c event k o.timeout)
                (lookup_checkpoint-IsLeased q run base k from h)
                λ found s g. event_value-IsLeased event k o.timeout found s g)
        ]
