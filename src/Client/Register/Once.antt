-- ===== src/Client/Register/Once.antt =====
-- What a registration leaves in the registry.
use absurd_rust_sdk.Base.{
  ◌≡◌, refl, ap, ◌∙◌, String, false, none, some, lookup, insert, lookup-insert, unwrap_or,
  if◌then◌else◌, str_eq, eq_refl, arith,
}
use absurd_rust_sdk.Error.{Result, ok, err, panic, task_already_registered, ◌>>◌}
use absurd_rust_sdk.Json.{Json}
use absurd_rust_sdk.Text.{is_empty, trim}
use absurd_rust_sdk.Types.Queue.{validate_queue_name}
use absurd_rust_sdk.Types.Task.{TaskOptions, too_few}
use absurd_rust_sdk.Backend.{Backend}
use absurd_rust_sdk.Hooks.{TaskExecution}
use absurd_rust_sdk.Client.State.{RegisteredTask, Registry, Client, get_registration}
use absurd_rust_sdk.Client.Register.{check_task_options, add_task, register_with_options}

-- What a chain of checks passes.
pub checked :
    {A : Type 0} (m : Result (Unit {0})) (k : Result A) (a : A)
    → (m >> k) ≡ ok a
    → (m ≡ ok tt) × (k ≡ ok a)
checked (ok tt) k a e = (refl, e)
checked (err x) k a e = ground arith
checked (panic x) k a e = ground arith

check_task_options_ok :
    (o : TaskOptions)
    → check_task_options o ≡ ok tt
    → (is_empty (trim o.name) ≡ false) × (too_few o.default_max_attempts ≡ false)
unfolding check_task_options
check_task_options_ok o e = ground arith

module _ {B : Backend} where
  abbrev pub registered_as : Client B → TaskOptions → (Json → TaskExecution B) → RegisteredTask B
  registered_as c options handler = record {
    queue_name = unwrap_or options.queue c.queue_name;
    default_max_attempts = options.default_max_attempts;
    default_cancellation = options.default_cancellation;
    handler = handler;
  }

  add_task_lem :
      (g g' : Registry B) (name : String) (t : RegisteredTask B)
      → add_task g name t ≡ ok g'
      → (g.poisoned ≡ false)
        × (lookup name g.entries ≡ none)
        × (g' ≡ record g { entries = insert name t g.entries })
  unfolding add_task
  add_task_lem g g' name t e = ground arith

  get_registration-insert :
      (g : Registry B) (name other : String) (t : RegisteredTask B)
      → g.poisoned ≡ false
      → get_registration (record g { entries = insert name t g.entries }) other
        ≡ (if str_eq name other then ok (some t) else get_registration g other)
  unfolding get_registration
  get_registration-insert g name other t sound =
      rw (sound, lookup-insert other name t g.entries) (ground arith)

  abbrev Passes : Client B → TaskOptions → (Json → TaskExecution B) → Registry B → Type 0
  Passes c o handler g =
      (check_task_options o ≡ ok tt)
      × (validate_queue_name (unwrap_or o.queue c.queue_name) ≡ ok tt)
      × (add_task c.registry o.name (registered_as c o handler) ≡ ok g)

  passes :
      (c : Client B) (o : TaskOptions) (handler : Json → TaskExecution B) (g : Registry B)
      → register_with_options c o handler ≡ ok g
      → Passes c o handler g
  unfolding register_with_options
  passes c o handler g e =
      let valid = validate_queue_name (unwrap_or o.queue c.queue_name) in
      let t = registered_as c o handler in
      let (checks, added) =
        checked (check_task_options o >> valid) (add_task c.registry o.name t) g e in
      let (options_ok, queue_ok) = checked (check_task_options o) valid tt checks in
      (options_ok, queue_ok, added)

  -- A registration that succeeds has checked the task's name, its attempts and its queue, and its
  -- name was free. It adds this task, with the client's queue if the task has none, and leaves every
  -- other task as it was.
  pub register_with_options_lem :
      (c : Client B) (o : TaskOptions) (handler : Json → TaskExecution B) (g : Registry B)
      → register_with_options c o handler ≡ ok g
      → (is_empty (trim o.name) ≡ false)
        × (too_few o.default_max_attempts ≡ false)
        × (validate_queue_name (unwrap_or o.queue c.queue_name) ≡ ok tt)
        × (get_registration c.registry o.name ≡ ok none)
        × ((name : String)
            → get_registration g name ≡ (
                if str_eq o.name name
                then ok (some (registered_as c o handler))
                else get_registration c.registry name))
  unfolding get_registration
  register_with_options_lem c o handler g e =
      let (options_ok, queue_ok, added) = passes c o handler g e in
      let t = registered_as c o handler in
      let (sound, free, result) = add_task_lem c.registry g o.name t added in
      let (named, enough) = check_task_options_ok o options_ok in
      (
        named,
        enough,
        queue_ok,
        rw (sound, free) refl,
        λ name. rw result (get_registration-insert c.registry o.name name t sound),
      )

  add_task_again :
      (g : Registry B) (name : String) (t u : RegisteredTask B)
      → g.poisoned ≡ false
      → lookup name g.entries ≡ some u
      → add_task g name t ≡ err (task_already_registered name)
  unfolding add_task
  add_task_again g name t u sound found = rw (sound, found) refl

  -- A name can be registered once: the same registration is refused by the client that has it.
  pub register_with_options_twice :
      (c : Client B) (o : TaskOptions) (handler again : Json → TaskExecution B) (g : Registry B)
      → register_with_options c o handler ≡ ok g
      → register_with_options (record c { registry = g }) o again
        ≡ err (task_already_registered o.name)
  unfolding register_with_options
  register_with_options_twice c o handler again g e =
      let (options_ok, queue_ok, added) = passes c o handler g e in
      let t = registered_as c o handler in
      let (sound, free, result) = add_task_lem c.registry g o.name t added in
      rw (options_ok, queue_ok)
        (add_task_again g o.name (registered_as c o again) t
          (ap (λ (x : Registry B). x.poisoned) result ∙ sound)
          (ap (λ (x : Registry B). lookup o.name x.entries) result
            ∙ lookup-insert o.name o.name t c.registry.entries
            ∙ ap (λ b. if b then some t else lookup o.name c.registry.entries) (eq_refl o.name)))
