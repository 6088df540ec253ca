-- ===== src/Examples/Echo.antt =====
-- `proto.echo.Message` of plugin/js/examples/echo/echo.js (examples/pb/echo.js has the same code), one
-- text, and the description of its service in plugin/js/examples/echo/echo_rpc.js.
pub mod RoundTrip
pub mod Calls
use pymaid.Prelude.{ℕ, suc, [], ◌∷◌, codes, Bytes, length, ◌==◌, if◌then◌else◌, Result, ok, ◌>>=◌}
use pymaid.Js.{Value, str, obj, Fields, end, field, get, is_present}
use pymaid.Jspb.{Jspb}
use pymaid.Pb.Wire.{write_given, read_loop}
use pymaid.Api.{MessageType, with_fields}
use pymaid.Rpc.Env.{Method}
use pymaid.Rpc.Channel.{Service}

module _ (j : Jspb) where
  open j use {
    Message, Writer, Reader, initialize, get_field_with_default, set_field, set_proto3_string_field,
    new_writer, get_result_buffer, new_reader, read_string, skip_field,
  }

  abbrev pub get_message : Message → Value
  get_message this = get_field_with_default this 1 (str [])

  abbrev pub set_message : Message → Value → Message
  set_message this value = set_proto3_string_field this 1 value

  unfoldable pub to_object : Message → Value
  to_object msg = obj (field (codes "message") (get_message msg) end)

  unfoldable pub from_object : Fields → Message
  from_object o =
      let message = get (codes "message") o in
      if is_present message then set_field initialize 1 message else initialize

  -- The `switch` of `deserializeBinaryFromReader`.
  unfoldable pub read_field : ℕ → Message → Reader → Result (Message × Reader)
  read_field n msg reader =
      if n == 1
      then (read_string reader >>= λ r. ok (set_message msg r.0, r.1))
      else (skip_field reader >>= λ r. ok (msg, r))

  unfoldable pub deserialize_binary_from_reader : ℕ → Message → Reader → Result Message
  deserialize_binary_from_reader fuel msg reader = read_loop j read_field fuel msg reader

  -- A field takes a byte at least, so there are no more rounds than bytes.
  unfoldable pub deserialize_binary : Bytes → Result Message
  deserialize_binary bytes =
      deserialize_binary_from_reader (suc (length bytes)) initialize (new_reader bytes)

  unfoldable pub serialize_binary_to_writer : Message → Writer → Result Writer
  serialize_binary_to_writer message w = write_given j 1 (get_message message) w

  unfoldable pub serialize_binary : Message → Result Bytes
  serialize_binary this =
      serialize_binary_to_writer this new_writer >>= λ w. ok (get_result_buffer w)

  abbrev pub message_type : MessageType Message
  message_type = record {
    id = 10;
    from_object = with_fields from_object;
    to_object = to_object;
    serialize_binary = serialize_binary;
    deserialize_binary = deserialize_binary;
  }

  abbrev pub echo_method : Method Message
  echo_method = record {
    input_type = message_type;
    output_type = message_type;
    label = codes "undefined";
  }

  -- `pbrpc.EchoService`
  abbrev pub echo_service : Service Message
  echo_service = record {
    name = codes "echo.EchoService";
    methods =
        (codes "UnaryUnaryEcho", echo_method)
        ∷ (codes "UnaryStreamEcho", echo_method)
        ∷ (codes "StreamUnaryEcho", echo_method)
        ∷ (codes "StreamStreamEcho", echo_method)
        ∷ [];
  }
