-- ===== src/Context/Event/Replayed.antt =====
-- An event that was received is not awaited again.
use absurd_rust_sdk.Base.{◌≡◌, refl, ◌∙◌, String, ◌<>◌, false, some, unwrap_or}
use absurd_rust_sdk.Text.{is_empty, trim}
use absurd_rust_sdk.Json.{Json}
use absurd_rust_sdk.Backend.{Backend, Codec}
use absurd_rust_sdk.Context.State.{Run}
use absurd_rust_sdk.Context.State.Cache.{cached_at, lookup_checkpoint_found}
use absurd_rust_sdk.Context.Step.Replay.{checkpoint_of, named, cached_at-named}
use absurd_rust_sdk.Context.Event.{AwaitEventOptions, await_event_with_options}

-- The name of the step that an await of an event is.
abbrev pub event_step : String → AwaitEventOptions → String
event_step event o = unwrap_or o.step_name ("$awaitEvent:" <> event)

module _ {B : Backend} {T : Type 0} (c : Codec T) where
  -- An event whose checkpoint is cached gives the payload of the checkpoint without a call, whatever
  -- woke the run and whatever timeout is asked for. The event's name is not blank.
  pub await_event_replays :
      (event : String) (o : AwaitEventOptions) (v : Json) (r : Run B)
      → is_empty (trim event) ≡ false
      → cached_at (checkpoint_of (event_step event o) r) r ≡ some v
      → await_event_with_options c event o r ≡ (c.from_value v, named (event_step event o) r)
  unfolding await_event_with_options
  await_event_replays event o v r filled found =
      let name = event_step event o in
      rw
        (
          filled,
          lookup_checkpoint_found (checkpoint_of name r) v (named name r)
              (cached_at-named (checkpoint_of name r) name r ∙ found),
        )
        refl
