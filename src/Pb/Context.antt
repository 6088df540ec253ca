-- ===== src/Pb/Context.antt =====
-- `proto.pymaid.rpc.pb.Context`: the accessors, `toObject`, `fromObject`, and the two directions of the
-- wire format. The option `includeInstance` of `toObject` is not passed by the client.
pub mod Contents
pub mod Writing
pub mod Reading
pub mod RoundTrip
use pymaid.Prelude.{
  ℕ, suc, Bool, true, false, not, [], codes, Bytes, length, ◌==◌, if◌then◌else◌, Result, ok, ◌>>=◌,
  throw, type_error,
}
use pymaid.Js.{
  Value, undefined, null, bool, num, str, obj, arr, Fields, end, field, get, is_present, is_truthy,
  is_number,
}
use pymaid.Jspb.{Jspb}
use pymaid.Pb.Wire.{write_given, write_if, read_loop}

-- `Context.PacketType`
abbrev pub unknown_packet : ℕ
unknown_packet = 0

abbrev pub request_packet : ℕ
request_packet = 1

abbrev pub response_packet : ℕ
response_packet = 2

module _ (j : Jspb) where
  open j use {
    Message, Writer, Reader, initialize, get_field_with_default, get_boolean_field_with_default,
    set_field, set_proto3_int_field, set_proto3_enum_field, set_proto3_string_field,
    set_proto3_boolean_field, new_writer, write_uint32, write_enum, write_string, write_bool,
    get_result_buffer, new_reader, read_uint32, read_enum, read_string, read_bool, skip_field,
  }

  abbrev pub get_transmission_id : Message → Value
  get_transmission_id this = get_field_with_default this 1 (num 0)

  abbrev pub set_transmission_id : Message → Value → Message
  set_transmission_id this value = set_proto3_int_field this 1 value

  abbrev pub get_packet_type : Message → Value
  get_packet_type this = get_field_with_default this 2 (num 0)

  abbrev pub set_packet_type : Message → Value → Message
  set_packet_type this value = set_proto3_enum_field this 2 value

  abbrev pub get_packet_flags : Message → Value
  get_packet_flags this = get_field_with_default this 3 (num 0)

  abbrev pub set_packet_flags : Message → Value → Message
  set_packet_flags this value = set_proto3_enum_field this 3 value

  abbrev pub get_priority : Message → Value
  get_priority this = get_field_with_default this 4 (num 0)

  abbrev pub set_priority : Message → Value → Message
  set_priority this value = set_proto3_enum_field this 4 value

  abbrev pub get_service_method : Message → Value
  get_service_method this = get_field_with_default this 5 (str [])

  abbrev pub set_service_method : Message → Value → Message
  set_service_method this value = set_proto3_string_field this 5 value

  abbrev pub get_is_cancelled : Message → Value
  get_is_cancelled this = get_boolean_field_with_default this 6 (bool false)

  abbrev pub set_is_cancelled : Message → Value → Message
  set_is_cancelled this value = set_proto3_boolean_field this 6 value

  abbrev pub get_is_failed : Message → Value
  get_is_failed this = get_boolean_field_with_default this 7 (bool false)

  abbrev pub set_is_failed : Message → Value → Message
  set_is_failed this value = set_proto3_boolean_field this 7 value

  unfoldable pub to_object : Message → Value
  to_object msg = obj (
      field (codes "transmissionId") (get_transmission_id msg) (
        field (codes "packetType") (get_packet_type msg) (
          field (codes "packetFlags") (get_packet_flags msg) (
            field (codes "priority") (get_priority msg) (
              field (codes "serviceMethod") (get_service_method msg) (
                field (codes "isCancelled") (get_is_cancelled msg)
                  (field (codes "isFailed") (get_is_failed msg) end)))))))

  -- `value != null && jspb.Message.setField(msg, n, value)`
  abbrev pub set_present : ℕ → Value → Message → Message
  set_present n value msg = if is_present value then set_field msg n value else msg

  unfoldable pub from_object : Fields → Message
  unfolding get
  from_object o = set_present 7 (get (codes "isFailed") o) (
      set_present 6 (get (codes "isCancelled") o) (
        set_present 5 (get (codes "serviceMethod") o) (
          set_present 4 (get (codes "priority") o) (
            set_present 3 (get (codes "packetFlags") o) (
              set_present 2 (get (codes "packetType") o)
                (set_present 1 (get (codes "transmissionId") o) initialize))))))

  -- The `switch` of `deserializeBinaryFromReader`.
  unfoldable pub read_field : ℕ → Message → Reader → Result (Message × Reader)
  read_field n msg reader =
      if n == 1
      then (read_uint32 reader >>= λ r. ok (set_transmission_id msg r.0, r.1))
      else if n == 2
      then (read_enum reader >>= λ r. ok (set_packet_type msg r.0, r.1))
      else if n == 3
      then (read_enum reader >>= λ r. ok (set_packet_flags msg r.0, r.1))
      else if n == 4
      then (read_enum reader >>= λ r. ok (set_priority msg r.0, r.1))
      else if n == 5
      then (read_string reader >>= λ r. ok (set_service_method msg r.0, r.1))
      else if n == 6
      then (read_bool reader >>= λ r. ok (set_is_cancelled msg r.0, r.1))
      else if n == 7
      then (read_bool reader >>= λ r. ok (set_is_failed msg r.0, r.1))
      else (skip_field reader >>= λ r. ok (msg, r))

  unfoldable pub deserialize_binary_from_reader : ℕ → Message → Reader → Result Message
  unfolding read_loop read_field
  deserialize_binary_from_reader fuel msg reader = read_loop j read_field fuel msg reader

  -- A field takes a byte at least, so there are no more rounds than bytes.
  unfoldable pub deserialize_binary : Bytes → Result Message
  deserialize_binary bytes =
      deserialize_binary_from_reader (suc (length bytes)) initialize (new_reader bytes)

  unfoldable pub serialize_binary_to_writer : Message → Writer → Result Writer
  serialize_binary_to_writer message w = do
    let id = get_transmission_id message
    w ← write_if j (not (is_number 0 id)) (write_uint32 1 id) w
    let type = get_packet_type message
    w ← write_if j (not (is_number 0 type)) (write_enum 2 type) w
    let flags = get_packet_flags message
    w ← write_if j (not (is_number 0 flags)) (write_enum 3 flags) w
    let priority = get_priority message
    w ← write_if j (not (is_number 0 priority)) (write_enum 4 priority) w
    let service_method = get_service_method message
    w ← write_given j 5 service_method w
    let cancelled = get_is_cancelled message
    w ← write_if j (is_truthy cancelled) (write_bool 6 cancelled) w
    let failed = get_is_failed message
    write_if j (is_truthy failed) (write_bool 7 failed) w

  unfoldable pub serialize_binary : Message → Result Bytes
  unfolding serialize_binary_to_writer
  serialize_binary this =
      serialize_binary_to_writer this new_writer >>= λ w. ok (get_result_buffer w)
