-- ===== src/Rpc/Env.antt =====
-- What the client is given, and what it lets the world see.
use pymaid.Prelude.{ℕ, Text, Bytes, Result}
use pymaid.Js.{Value}
use pymaid.Jspb.{Jspb}
use pymaid.Api.{MessageType}

-- The protobuf runtime, JavaScript's `JSON.parse`, and the fuel of the conversions.
pub record Env : Type 1 where
  pub jspb : Jspb
  pub json_parse : Value → Result Value
  pub fuel : ℕ

-- An entry of a service's description (`pbrpc`), or a method of an implementation. `label` is what
-- `method.name` prints.
pub record Method (Message : Type 0) : Type 0 where
  pub input_type : MessageType Message
  pub output_type : MessageType Message
  pub label : Text

-- An argument of a callback: null, a value, or the bytes of a packet.
pub data Argument : Type 0 where
  nothing : Argument
  value : Value → Argument
  raw : Bytes → Argument

-- What the client does to the outside. Callbacks are known by numbers; the code that they run is not
-- the client's.
pub data Event : Type 0 where
  -- `ws.send(bytes)` on the connection with this number, and `ws.close()`
  sent : ℕ → Bytes → Event
  ws_close : ℕ → Event
  -- `cb(err, resp)` at once, and `setTimeout(cb.bind(this, err, resp), 0)`
  called : ℕ → Argument → Argument → Event
  scheduled : ℕ → Argument → Argument → Event
  -- `impl[method](context, req, reply)`
  invoked : Text → Text → Value → Value → Event
  -- the caller's `onopen`, `onclose` and `onerror`
  opened : ℕ → Event
  closed : ℕ → Event
  failed : ℕ → Event
