-- ===== src/Client/Erase.antt =====
-- How a typed handler becomes a registered one in src/client.rs.
use absurd_rust_sdk.Json.{Json}
use absurd_rust_sdk.Backend.{Backend, Codec, Action, lift, ◌>>=◌}
use absurd_rust_sdk.Context.State.{Run}
use absurd_rust_sdk.Hooks.{TaskExecution}

-- The parameters are read, the handler is run, and its result is written.
unfoldable pub erase :
    {B : Backend} {P R : Type 0}
    → Codec P
    → Codec R
    → (P → Action (Run B) R)
    → Json
    → TaskExecution B
erase params_codec result_codec handler value = do
  params ← lift (params_codec.from_value value)
  result ← handler params
  lift (result_codec.to_value result)
