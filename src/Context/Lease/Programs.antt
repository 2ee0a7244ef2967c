-- ===== src/Context/Lease/Programs.antt =====
-- The lease while a handler uses the operations of its context.
use absurd_rust_sdk.Base.{String, List}
use absurd_rust_sdk.Error.{Uuid}
use absurd_rust_sdk.Text.{is_empty, trim}
use absurd_rust_sdk.Base.{Bool-cases, inl, inr}
use absurd_rust_sdk.Backend.{carried_on, Backend, Codec, Event, emit_event as emit_event_call}
use absurd_rust_sdk.Context.State.{Run, heartbeat, heartbeat_for}
use absurd_rust_sdk.Context.Step.{step}
use absurd_rust_sdk.Context.Event.{await_event_with_options, emit_event}
use absurd_rust_sdk.Context.Sleep.{sleep_until, sleep_for}
use absurd_rust_sdk.Context.Program.{
  Program, done, does_step, awaits, emits, sleeps_until, sleeps_for, beats, beats_for, perform,
}
use absurd_rust_sdk.Context.Lease.{IsLeased}
use absurd_rust_sdk.Context.Lease.Kept.{on_call-IsLeased, heartbeat_for-IsLeased}
use absurd_rust_sdk.Context.Lease.Operations.{IsSilent, step-IsLeased, await_event-IsLeased}
use absurd_rust_sdk.Context.Lease.Sleeps.{sleep_until-IsLeased, sleep_for-IsLeased}

abbrev pub StepsAreSilent : {B : Backend} {A : Type 0} → Program B A → Type 0
StepsAreSilent (done x) = Unit
StepsAreSilent (does_step T c name f next) = IsSilent f × ((t : T) → StepsAreSilent (next t))
StepsAreSilent (awaits T c event o next) = (t : T) → StepsAreSilent (next t)
StepsAreSilent (emits T c event t next) = StepsAreSilent next
StepsAreSilent (sleeps_until name wake_at next) = StepsAreSilent next
StepsAreSilent (sleeps_for name d next) = StepsAreSilent next
StepsAreSilent (beats next) = StepsAreSilent next
StepsAreSilent (beats_for d next) = StepsAreSilent next

module _ (q : String) (run : Uuid) {B : Backend} (base : List Event) where
  abbrev Leased : Run B → Type 0
  Leased r = IsLeased q run base r

  emit_event-IsLeased :
      {T : Type 0} (c : Codec T) (event : String) (t : T) (r : Run B)
      → Leased r
      → Leased (emit_event c event t r).1
  unfolding emit_event
  emit_event-IsLeased c event t r h = elim (Bool-cases (is_empty (trim event))) [
    | inl blank ↦ rw blank h
    | inr filled ↦ rw filled (
        carried_on Leased (c.to_value t, r) _ h
          λ v s g. on_call-IsLeased q run base (emit_event_call s.ctx.queue_name event v) s g)
  ]

  heartbeat-IsLeased : (r : Run B) → Leased r → Leased (heartbeat r).1
  unfolding heartbeat
  heartbeat-IsLeased r h = heartbeat_for-IsLeased q run base r.ctx.claim_timeout r h

  -- However a handler ends, the watchdog was told of a lease only right after a call that asks for it.
  pub perform-IsLeased :
      {A : Type 0} (h : Program B A) (r : Run B)
      → StepsAreSilent h
      → Leased r
      → Leased (perform h r).1
  unfolding perform
  perform-IsLeased (done x) r silent g = g
  perform-IsLeased (does_step T c name f next) r silent g =
      carried_on Leased (step c name f r) (λ t. perform (next t))
        (step-IsLeased q run base c f silent.0 name r g)
        (λ t s k. perform-IsLeased (next t) s (silent.1 t) k)
  perform-IsLeased (awaits T c event o next) r silent g =
      carried_on Leased (await_event_with_options c event o r) (λ t. perform (next t))
        (await_event-IsLeased q run base c event o r g)
        (λ t s k. perform-IsLeased (next t) s (silent t) k)
  perform-IsLeased (emits T c event t next) r silent g =
      carried_on Leased (emit_event c event t r) (λ _. perform next)
        (emit_event-IsLeased c event t r g) (λ x s k. perform-IsLeased next s silent k)
  perform-IsLeased (sleeps_until name wake_at next) r silent g =
      carried_on Leased (sleep_until name wake_at r) (λ _. perform next)
        (sleep_until-IsLeased q run base name wake_at r g)
        (λ x s k. perform-IsLeased next s silent k)
  perform-IsLeased (sleeps_for name d next) r silent g =
      carried_on Leased (sleep_for name d r) (λ _. perform next)
        (sleep_for-IsLeased q run base name d r g) (λ x s k. perform-IsLeased next s silent k)
  perform-IsLeased (beats next) r silent g =
      carried_on Leased (heartbeat r) (λ _. perform next) (heartbeat-IsLeased r g)
        (λ x s k. perform-IsLeased next s silent k)
  perform-IsLeased (beats_for d next) r silent g =
      carried_on Leased (heartbeat_for d r) (λ _. perform next)
        (heartbeat_for-IsLeased q run base d r g) (λ x s k. perform-IsLeased next s silent k)
