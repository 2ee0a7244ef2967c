-- ===== src/Context/Lease/Sleeps.antt =====
-- A sleep tells the watchdog of a lease only right after asking the database for it.
use absurd_rust_sdk.Base.{String, ltb, Option, none, some, List, Bool-cases, inl, inr}
use absurd_rust_sdk.Error.{Uuid, suspended}
use absurd_rust_sdk.Json.{Json}
use absurd_rust_sdk.Types.Duration.{Duration}
use absurd_rust_sdk.Backend.{
  carried_on, Backend, Event, Timestamp, current_time as current_time_call,
  schedule_run as schedule_run_call, call, pure, raise, ◌>>◌,
}
use absurd_rust_sdk.Context.State.{
  next_checkpoint_name, Run, lookup_checkpoint, persist_checkpoint, current_time, schedule_run,
  on_world,
}
use absurd_rust_sdk.Context.Step.Replay.{checkpoint_of, named}
use absurd_rust_sdk.Context.Sleep.{
  settle_wake, suspend_until, sleep_until_at_current_time, sleep_until, sleep_for,
  postgres_timestamp_precision, or_panic, or_too_large,
}
use absurd_rust_sdk.Context.Lease.{IsLeased}
use absurd_rust_sdk.Context.Lease.Kept.{
  on_call-IsLeased, lookup_checkpoint-IsLeased, persist_checkpoint-IsLeased,
}

module _ (q : String) (run : Uuid) {B : Backend} (base : List Event) where
  abbrev Leased : Run B → Type 0
  Leased r = IsLeased q run base r

  settle_wake-IsLeased :
      (k : String) (wake_at : Timestamp) (o : Option Json) (r : Run B)
      → Leased r
      → Leased (settle_wake k wake_at o r).1
  unfolding settle_wake
  settle_wake-IsLeased k wake_at (some v) r h = h
  settle_wake-IsLeased k wake_at none r h =
      carried_on Leased (B.time_codec.to_value wake_at, r)
        (λ v. persist_checkpoint k v >> pure wake_at) h
        λ v s g.
          carried_on Leased (persist_checkpoint k v s) (λ _. pure wake_at)
            (persist_checkpoint-IsLeased q run base k v s g) (λ x t m. m)

  suspend_until-IsLeased :
      (now wake_at : Timestamp) (r : Run B) → Leased r → Leased (suspend_until now wake_at r).1
  unfolding suspend_until schedule_run
  suspend_until-IsLeased now wake_at r h = elim (Bool-cases (ltb now wake_at)) [
    | inl early ↦ rw early (
        let c = schedule_run_call r.ctx.queue_name r.ctx.task.run_id wake_at in
        carried_on Leased (on_world (call c) r) (λ _. raise suspended)
          (on_call-IsLeased q run base c r h) (λ x s g. g))
    | inr late ↦ rw late h
  ]

  asleep-IsLeased :
      (name : String) (wake_at now : Timestamp) (r : Run B)
      → Leased r
      → Leased (sleep_until_at_current_time name wake_at now r).1
  unfolding sleep_until_at_current_time next_checkpoint_name
  asleep-IsLeased name wake_at now r h =
      let k = checkpoint_of name r in
      let from = named name r in
      let precise = postgres_timestamp_precision wake_at in
      carried_on Leased (lookup_checkpoint k from) _
        (lookup_checkpoint-IsLeased q run base k from h)
        λ cached s g.
          carried_on Leased (settle_wake k precise cached s) (suspend_until now)
            (settle_wake-IsLeased k precise cached s g)
            λ actual t m. suspend_until-IsLeased now actual t m

  pub sleep_until-IsLeased :
      (name : String) (wake_at : Timestamp) (r : Run B)
      → Leased r
      → Leased (sleep_until name wake_at r).1
  unfolding sleep_until current_time
  sleep_until-IsLeased name wake_at r h =
      carried_on Leased (on_world (call current_time_call) r)
        (sleep_until_at_current_time name wake_at)
        (on_call-IsLeased q run base current_time_call r h)
        λ now s g. asleep-IsLeased name wake_at now s g

  pub sleep_for-IsLeased :
      (name : String) (d : Duration) (r : Run B) → Leased r → Leased (sleep_for name d r).1
  unfolding sleep_for current_time
  sleep_for-IsLeased name d r h =
      carried_on Leased (or_too_large (B.from_std d), r) _ h
        λ d s g.
          carried_on Leased (on_world (call current_time_call) s) _
            (on_call-IsLeased q run base current_time_call s g)
            λ now t m.
              carried_on Leased (or_panic B.overflow (B.add_time now d), t)
                (λ wake_at. sleep_until_at_current_time name wake_at now) m
                λ wake_at u k. asleep-IsLeased name wake_at now u k
