-- ===== src/Executor/Watchdog.antt =====
-- `lease_watchdog` in src/executor.rs: a loop over the lease's watch channel, as a machine that
-- takes one step for each arm of a `select!` that is chosen.
use absurd_rust_sdk.Base.{◌≡◌, refl, Bool, true, false, ◌&&◌, ◌||◌, List, [], ◌∷◌, if◌then◌else◌}
use absurd_rust_sdk.Types.Duration.{Duration}

-- `rx.changed()` with the new lease; `rx.changed()` after the sender is gone; `sleep(lease)`.
pub data Input : Type 0 where
  renewed : Duration → Input
  dropped : Input
  elapsed : Input

-- `watching`: the outer `select!`; `overdue`: the inner one; `returned`: the function has ended;
-- `exited`: the process was terminated.
pub data Watch : Type 0 where
  watching : Duration → Watch
  overdue : Duration → Watch
  returned : Watch
  exited : Watch

-- `fatal` is `fatal_on_lease_timeout`.
unfoldable pub watch_step : Bool → Watch → Input → Watch
watch_step fatal (watching lease) (renewed d) = watching d
watch_step fatal (watching lease) dropped = returned
watch_step fatal (watching lease) elapsed = if fatal then overdue lease else watching lease
watch_step fatal (overdue lease) (renewed d) = watching d
watch_step fatal (overdue lease) dropped = returned
watch_step fatal (overdue lease) elapsed = exited
watch_step fatal returned _ = returned
watch_step fatal exited _ = exited

unfoldable pub lease_watchdog : Bool → Watch → List Input → Watch
unfolding watch_step
lease_watchdog fatal w [] = w
lease_watchdog fatal w (i ∷ is) = lease_watchdog fatal (watch_step fatal w i) is

abbrev pub is_exited : Watch → Bool
is_exited exited = true
is_exited _ = false

-- Two whole leases in a row went by before the sender was gone; `late`: the last one did.
pub missed_twice : Bool → List Input → Bool
missed_twice late [] = false
missed_twice late (renewed d ∷ is) = missed_twice false is
missed_twice late (dropped ∷ is) = false
missed_twice late (elapsed ∷ is) = late || missed_twice true is

ended : (fatal : Bool) (is : List Input) → is_exited (lease_watchdog fatal returned is) ≡ false
unfolding lease_watchdog
ended fatal [] = refl
ended fatal (_ ∷ is) = ended fatal is

stays_exited : (fatal : Bool) (is : List Input) → is_exited (lease_watchdog fatal exited is) ≡ true
unfolding lease_watchdog
stays_exited fatal [] = refl
stays_exited fatal (_ ∷ is) = stays_exited fatal is

mild : (d : Duration) (is : List Input) → is_exited (lease_watchdog false (watching d) is) ≡ false
unfolding lease_watchdog
mild d [] = refl
mild d (renewed e ∷ is) = mild e is
mild d (dropped ∷ is) = ended false is
mild d (elapsed ∷ is) = mild d is

strict :
    (d : Duration) (is : List Input)
    → is_exited (lease_watchdog true (watching d) is) ≡ missed_twice false is
unfolding lease_watchdog missed_twice
strict d [] = refl
strict d (renewed e ∷ is) = strict e is
strict d (dropped ∷ is) = ended true is
strict d (elapsed ∷ []) = refl
strict d (elapsed ∷ renewed e ∷ is) = strict e is
strict d (elapsed ∷ dropped ∷ is) = ended true is
strict d (elapsed ∷ elapsed ∷ is) = stays_exited true is

-- The watchdog terminates the process exactly when that is asked for and two leases in a row have
-- gone by with neither a renewal between them nor the end of the task before them.
pub lease_watchdog_exits :
    (fatal : Bool) (d : Duration) (is : List Input)
    → is_exited (lease_watchdog fatal (watching d) is) ≡ (fatal && missed_twice false is)
lease_watchdog_exits true d is = strict d is
lease_watchdog_exits false d is = mild d is
