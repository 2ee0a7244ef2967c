-- ===== src/Client/Queues/Refusals.antt =====
-- Bad queue names do not reach the database.
use absurd_rust_sdk.Base.{◌≡◌, refl, String}
use absurd_rust_sdk.Error.{Error, err}
use absurd_rust_sdk.Types.Queue.{validate_queue_name, QueuePolicyOptions, CreateQueueOptions}
use absurd_rust_sdk.Backend.{Backend, World, Action}
use absurd_rust_sdk.Client.Queues.{
  create_queue_in, set_queue_policy_in, create_queue_in_with_options, get_queue_policy_in,
  drop_queue_in,
}

module _ {B : Backend} where
  -- The action ends in this error and leaves the world as it was.
  abbrev pub Refuses : {A : Type 0} → Action (World B) A → Error → Type 0
  Refuses m e = (w : World B) → m w ≡ (err e, w)

  -- A queue name that is refused is refused by all five queue operations, before any connection is
  -- taken and any procedure is called.
  pub queue_operations_refuse :
      (q : String) (e : Error) (policy : QueuePolicyOptions) (options : CreateQueueOptions)
      → validate_queue_name q ≡ err e
      → Refuses (create_queue_in q) e
        × Refuses (set_queue_policy_in q policy) e
        × Refuses (create_queue_in_with_options q options) e
        × Refuses (get_queue_policy_in q) e
        × Refuses (drop_queue_in q) e
  unfolding create_queue_in set_queue_policy_in create_queue_in_with_options get_queue_policy_in
      drop_queue_in
  queue_operations_refuse q e policy options bad =
      (λ w. rw bad refl, λ w. rw bad refl, λ w. rw bad refl, λ w. rw bad refl, λ w. rw bad refl)
