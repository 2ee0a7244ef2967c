-- ===== src/Client/Typed.antt =====
-- `register` and `spawn` of a typed task in src/client.rs.
use absurd_rust_sdk.Error.{Result}
use absurd_rust_sdk.Task.{Task}
use absurd_rust_sdk.Backend.{Backend, Codec, Action}
use absurd_rust_sdk.Context.State.{Run}
use absurd_rust_sdk.Client.State.{Registry, Client}
use absurd_rust_sdk.Client.Erase.{erase}
use absurd_rust_sdk.Client.Register.{register_with_options}

module _ {B : Backend} {P R : Type 0} where
  unfoldable pub register :
      Codec P → Codec R → Client B → Task P R → (P → Action (Run B) R) → Result (Registry B)
  unfolding register_with_options erase
  register params_codec result_codec c task handler =
      register_with_options c task.options (erase params_codec result_codec handler)
