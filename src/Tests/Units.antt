-- ===== src/Tests/Units.antt =====
-- The unit tests of the repository, each as the equations that it asserts of the model.
mod Types
mod Options
mod Results
mod Connection
mod Executor
mod Hooks
use absurd_rust_sdk.Base.{ℕ, zero, suc, String, ◌<>◌, Bool, true, false, unwrap_or}
use absurd_rust_sdk.Error.{Result, ok, err, panic}
use absurd_rust_sdk.Json.{Json, null}
use absurd_rust_sdk.Types.Task.Wire.{at}

-- `Result::is_ok` and `Result::is_err`
abbrev pub is_ok : {A : Type 0} → Result A → Bool
is_ok (ok a) = true
is_ok _ = false

abbrev pub is_err : {A : Type 0} → Result A → Bool
is_err (err e) = true
is_err _ = false

-- `str::repeat`
unfoldable pub repeated : String → ℕ → String
repeated s zero = ""
repeated s (suc n) = s <> repeated s n

-- `value[k]`, which is `null` where there is no such key.
abbrev pub index : Json → String → Json
index value k = unwrap_or (at k value) null
