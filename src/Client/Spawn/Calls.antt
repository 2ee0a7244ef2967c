-- ===== src/Client/Spawn/Calls.antt =====
-- What a spawn does, from the hook to the call.
use absurd_rust_sdk.Base.{
  ◌≡◌, sym, ap, ◌∙◌, String, false, Option, ◌∷◌, arith, Bool-cases, inl, inr,
}
use absurd_rust_sdk.Error.{Result, ok}
use absurd_rust_sdk.Int.{ℤ}
use absurd_rust_sdk.Json.{Json}
use absurd_rust_sdk.Text.{is_empty, trim}
use absurd_rust_sdk.Types.Retry.{CancellationPolicy}
use absurd_rust_sdk.Types.Task.{TaskOptions, SpawnOptions, SpawnResult, spawn_to_sql_json}
use absurd_rust_sdk.Backend.{
  Backend, Codec, World, lift, call, ◌>>=◌, call_ok, sql, spawn_task, went_on,
}
use absurd_rust_sdk.Hooks.{apply_before_spawn}
use absurd_rust_sdk.Client.State.{RegisteredTask, Client, get_registration}
use absurd_rust_sdk.Client.Spawn.{resolve_with, resolve_spawn, spawn_checked, spawn_resolved}
use absurd_rust_sdk.Client.Spawn.Resolved.{Fits, resolve_with-Fits, bind_ok}

module _ {B : Backend} {P : Type 0} (codec : Codec P) where
  -- How a spawn succeeds: the parameters are written, the hook gives its options, the queue, the
  -- attempts and the cancellation fit them and what is registered, and last a single call is made.
  pub record Spawned (c : Client B) (name : String) (t : Option TaskOptions) (params : P)
      (o : SpawnOptions) (w s : World B) : Type 0 where
    pub value : Json
    pub hooked : SpawnOptions
    pub after_hook : World B
    pub registration : Option (RegisteredTask B)
    pub resolved : String × ℤ × Option CancellationPolicy
    pub named : is_empty (trim name) ≡ false
    pub written : codec.to_value params ≡ ok value
    pub from_hook : apply_before_spawn c.hooks name value o w ≡ (ok hooked, after_hook)
    pub registered : get_registration c.registry name ≡ ok registration
    pub fits : Fits c registration t hooked resolved
    pub called :
        s.log
        ≡ sql (spawn_task resolved.0 name value (spawn_to_sql_json hooked resolved.1 resolved.2))
          ∷ after_hook.log

  spawn_checked-Spawned :
      (c : Client B) (name : String) (t : Option TaskOptions) (params : P) (o : SpawnOptions)
      (w s : World B) (res : SpawnResult)
      → is_empty (trim name) ≡ false
      → spawn_checked codec c name t params o w ≡ (ok res, s)
      → Spawned c name t params o w s
  unfolding spawn_checked resolve_spawn
  spawn_checked-Spawned c name t params o w s res named e =
      let spawned =
        λ (value : Json) (hooked : SpawnOptions) (x : String × ℤ × Option CancellationPolicy).
          call {B = B} (spawn_task x.0 name value (spawn_to_sql_json hooked x.1 x.2)) in
      let (value, u, written, rest) =
        went_on (lift {S = World B} (codec.to_value params) w)
          (λ value. apply_before_spawn c.hooks name value o >>= λ hooked.
            lift (resolve_spawn c name t hooked) >>= spawned value hooked)
          res s e in
      let (hooked, v, from_hook, rest') =
        went_on (apply_before_spawn c.hooks name value o u)
          (λ hooked. lift (resolve_spawn c name t hooked) >>= spawned value hooked) res s rest in
      let (x, v', resolved, last) =
        went_on (lift {S = World B} (resolve_spawn c name t hooked) v) (spawned value hooked) res s
          rest' in
      let (registration, registered, chosen) =
        bind_ok (get_registration c.registry name) (λ r. resolve_with c r name t hooked) x
          (ap (λ (m : Result (String × ℤ × Option CancellationPolicy) × World B). m.0) resolved) in
      record {
        value = value;
        hooked = hooked;
        after_hook = v;
        registration = registration;
        resolved = x;
        named = named;
        written = ap (λ (m : Result Json × World B). m.0) written;
        from_hook =
            ap (apply_before_spawn c.hooks name value o)
              (ap (λ (m : Result Json × World B). m.1) written)
            ∙ from_hook;
        registered = registered;
        fits = resolve_with-Fits c registration name t hooked x chosen;
        called =
            call_ok (spawn_task x.0 name value (spawn_to_sql_json hooked x.1 x.2)) v' s res last
            ∙ ap
                (λ (u : World B).
                  sql (spawn_task x.0 name value (spawn_to_sql_json hooked x.1 x.2)) ∷ u.log)
                (sym (
                  ap (λ (m : Result (String × ℤ × Option CancellationPolicy) × World B). m.1)
                    resolved));
      }

  -- A spawn that succeeds has a name, has written its parameters, has used the options that the
  -- hook gave, with the queue, the attempts and the cancellation that fit them, and has made one
  -- call after the hook, which spawns just that task.
  pub spawn_resolved-Spawned :
      (c : Client B) (name : String) (t : Option TaskOptions) (params : P) (o : SpawnOptions)
      (w s : World B) (res : SpawnResult)
      → spawn_resolved codec c name t params o w ≡ (ok res, s)
      → Spawned c name t params o w s
  unfolding spawn_resolved
  spawn_resolved-Spawned c name t params o w s res e = elim (Bool-cases (is_empty (trim name))) [
    | inl p ↦ ground arith
    | inr p ↦ spawn_checked-Spawned c name t params o w s res p (ground arith)
  ]
