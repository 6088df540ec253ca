-- ===== src/Pb/ErrorMessage.antt =====
-- `proto.pymaid.rpc.pb.ErrorMessage`: three texts.
pub mod RoundTrip
pub mod Reading
use pymaid.Prelude.{
  ℕ, suc, Bool, true, false, [], codes, Bytes, length, ◌==◌, if◌then◌else◌, Result, ok, ◌>>=◌,
}
use pymaid.Js.{Value, str, obj, Fields, end, field, get, is_present}
use pymaid.Jspb.{Jspb}
use pymaid.Pb.Wire.{write_given, read_loop}

module _ (j : Jspb) where
  open j use {
    Message, Writer, Reader, initialize, get_field_with_default, set_field, set_proto3_string_field,
    new_writer, get_result_buffer, new_reader, read_string, skip_field,
  }

  abbrev pub get_code : Message → Value
  get_code this = get_field_with_default this 1 (str [])

  abbrev pub set_code : Message → Value → Message
  set_code this value = set_proto3_string_field this 1 value

  abbrev pub get_message : Message → Value
  get_message this = get_field_with_default this 2 (str [])

  abbrev pub set_message : Message → Value → Message
  set_message this value = set_proto3_string_field this 2 value

  abbrev pub get_data : Message → Value
  get_data this = get_field_with_default this 3 (str [])

  abbrev pub set_data : Message → Value → Message
  set_data this value = set_proto3_string_field this 3 value

  unfoldable pub to_object : Message → Value
  to_object msg = obj (
      field (codes "code") (get_code msg)
        (field (codes "message") (get_message msg) (field (codes "data") (get_data msg) end)))

  -- `value != null && jspb.Message.setField(msg, n, value)`
  abbrev pub set_present : ℕ → Value → Message → Message
  set_present n value msg = if is_present value then set_field msg n value else msg

  unfoldable pub from_object : Fields → Message
  from_object o =
      set_present 3 (get (codes "data") o)
        (set_present 2 (get (codes "message") o) (set_present 1 (get (codes "code") o) initialize))

  -- The `switch` of `deserializeBinaryFromReader`.
  unfoldable pub read_field : ℕ → Message → Reader → Result (Message × Reader)
  read_field n msg reader =
      if n == 1
      then (read_string reader >>= λ r. ok (set_code msg r.0, r.1))
      else if n == 2
      then (read_string reader >>= λ r. ok (set_message msg r.0, r.1))
      else if n == 3
      then (read_string reader >>= λ r. ok (set_data msg r.0, r.1))
      else (skip_field reader >>= λ r. ok (msg, r))

  unfoldable pub deserialize_binary_from_reader : ℕ → Message → Reader → Result Message
  deserialize_binary_from_reader fuel msg reader = read_loop j read_field fuel msg reader

  -- A field takes a byte at least, so there are no more rounds than bytes.
  unfoldable pub deserialize_binary : Bytes → Result Message
  deserialize_binary bytes =
      deserialize_binary_from_reader (suc (length bytes)) initialize (new_reader bytes)

  unfoldable pub serialize_binary_to_writer : Message → Writer → Result Writer
  serialize_binary_to_writer message w = do
    w ← write_given j 1 (get_code message) w
    w ← write_given j 2 (get_message message) w
    write_given j 3 (get_data message) w

  unfoldable pub serialize_binary : Message → Result Bytes
  serialize_binary this =
      serialize_binary_to_writer this new_writer >>= λ w. ok (get_result_buffer w)
