-- ===== src/Examples/Complicated.antt =====
-- `proto.complicated.ComplicatedMessage` of plugin/js/examples/complicated/pb.js: a message, a list of
-- numbers, a map of messages, and a number; and the service of plugin/js/examples/complicated/pb_rpc.js.
pub mod Message
pub mod Contents
pub mod Writing
pub mod Reading
pub mod RoundTrip
use pymaid.Prelude.{
  ℕ, zero, suc, Bool, not, [], ◌∷◌, Option, none, some, codes, Bytes, length, ◌==◌, ltb,
  if◌then◌else◌, Result, ok, throw, ◌>>=◌,
}
use pymaid.Js.{
  Value, undefined, num, arr, nil, cons, Items, obj, Fields, end, field, get, is_present, is_truthy,
  is_number,
}
use pymaid.Jspb.{Jspb}
use pymaid.Jspb.Nested.{Nested}
use pymaid.Pb.Wire.{write_if, read_loop, has_length}
use pymaid.Api.{MessageType, with_fields}
use pymaid.Rpc.Env.{Method}
use pymaid.Rpc.Channel.{Service}
use pymaid.Examples.Complicated.Message

module _ (j : Jspb) (nested : Nested j) where
  open j use {
    Writer, Reader, get_field_with_default, set_field, set_proto3_int_field, initialize, new_writer,
    write_uint32, get_result_buffer, new_reader, read_uint32, skip_field,
  }
  open nested use {
    Map, initialize_repeated, has_field, get_wrapper_field, set_wrapper_field, get_repeated_field,
    add_to_repeated_field, get_map_field, find_map_field, set_map_field, map_length, map_clear,
    map_to_object, map_from_object, map_serialize_binary, map_deserialize_binary, write_message,
    write_packed_uint32, is_delimited, read_packed_uint32, read_message,
  }

  -- `new proto.complicated.ComplicatedMessage()`
  abbrev pub new_message : j.Message
  new_message = initialize_repeated (2 ∷ [])

  abbrev pub get_message : j.Message → Option j.Message
  get_message this = get_wrapper_field this 1

  abbrev pub set_message : j.Message → Option j.Message → j.Message
  set_message this value = set_wrapper_field this 1 value

  abbrev pub clear_message : j.Message → j.Message
  clear_message this = set_message this none

  abbrev pub has_message : j.Message → Bool
  has_message this = has_field this 1

  abbrev pub get_uints_list : j.Message → Value
  get_uints_list this = get_repeated_field this 2

  abbrev pub set_uints_list : j.Message → Value → j.Message
  set_uints_list this value = set_field this 2 (if is_truthy value then value else arr nil)

  abbrev pub add_uints : j.Message → Value → j.Message
  add_uints this value = add_to_repeated_field this 2 value

  abbrev pub clear_uints_list : j.Message → j.Message
  clear_uints_list this = set_uints_list this (arr nil)

  -- `find_messages_map` is the getter with `opt_noLazyCreate`.
  abbrev pub get_messages_map : j.Message → Map
  get_messages_map this = get_map_field this 3

  abbrev pub find_messages_map : j.Message → Option Map
  find_messages_map this = find_map_field this 3

  abbrev pub clear_messages_map : j.Message → j.Message
  clear_messages_map this = set_map_field this 3 (map_clear (get_messages_map this))

  abbrev pub get_count : j.Message → Value
  get_count this = get_field_with_default this 4 (num 0)

  abbrev pub set_count : j.Message → Value → j.Message
  set_count this value = set_proto3_int_field this 4 value

  -- `f == null ? undefined : f`
  abbrev pub unless_absent : Value → Value
  unless_absent f = if is_present f then f else undefined

  -- The map getter always gives a map.
  unfoldable pub to_object : j.Message → Value
  to_object msg = obj (
      field (codes "message")
        (elim (get_message msg) [ none ↦ undefined | some f ↦ Message.to_object j f ])
        (field (codes "uintsList") (unless_absent (get_uints_list msg)) (
          field (codes "messagesMap") (map_to_object (Message.to_object j) (get_messages_map msg))
            (field (codes "count") (get_count msg) end))))

  abbrev pub message_from_object : Value → Result j.Message
  message_from_object = with_fields (Message.from_object j)

  abbrev pub with_message : Value → j.Message → Result j.Message
  with_message value msg =
      let set = message_from_object value >>= λ f. ok (set_wrapper_field msg 1 (some f)) in
      if is_truthy value then set else ok msg

  abbrev pub with_uints : Value → j.Message → j.Message
  with_uints value msg = if is_present value then set_field msg 2 value else msg

  abbrev pub with_messages : Value → j.Message → Result j.Message
  with_messages value msg =
      let set = map_from_object message_from_object value >>= λ map. ok (set_map_field msg 3 map) in
      if is_truthy value then set else ok msg

  abbrev pub with_count : Value → j.Message → j.Message
  with_count value msg = if is_present value then set_field msg 4 value else msg

  unfoldable pub from_object : Fields → Result j.Message
  from_object o = do
    msg ← with_message (get (codes "message") o) new_message
    full ← with_messages (get (codes "messagesMap") o) (with_uints (get (codes "uintsList") o) msg)
    ok (with_count (get (codes "count") o) full)

  -- `for (var i = 0; i < values.length; i++) msg.addUints(values[i])`
  unfoldable pub add_all : Items → j.Message → j.Message
  add_all nil msg = msg
  add_all (cons value values) msg = add_all values (add_uints msg value)

  -- `reader.isDelimited() ? reader.readPackedUint32() : [reader.readUint32()]`
  unfoldable pub read_uints : Reader → Result (Items × Reader)
  read_uints reader =
      let one = read_uint32 reader >>= λ r. ok (cons r.0 nil, r.1) in
      if is_delimited reader then read_packed_uint32 reader else one

  -- The `switch` of `deserializeBinaryFromReader`; `fuel` is for the messages within.
  unfoldable pub read_field : ℕ → ℕ → j.Message → Reader → Result (j.Message × Reader)
  read_field fuel n msg reader =
      let read_value = Message.deserialize_binary_from_reader j fuel in
      if n == 1
      then (read_message read_value initialize reader >>= λ r. ok (set_message msg (some r.0), r.1))
      else if n == 2
      then (read_uints reader >>= λ r. ok (add_all r.0 msg, r.1))
      else if n == 3
      then (read_message (map_deserialize_binary read_value 0 initialize) (get_messages_map msg)
            reader
          >>= λ r. ok (set_map_field msg 3 r.0, r.1))
      else if n == 4
      then (read_uint32 reader >>= λ r. ok (set_count msg r.0, r.1))
      else (skip_field reader >>= λ r. ok (msg, r))

  unfoldable pub deserialize_binary_from_reader : ℕ → j.Message → Reader → Result j.Message
  deserialize_binary_from_reader fuel msg reader = read_loop j (read_field fuel) fuel msg reader

  -- A field takes a byte at least, so there are no more rounds than bytes.
  unfoldable pub deserialize_binary : Bytes → Result j.Message
  deserialize_binary bytes =
      deserialize_binary_from_reader (suc (length bytes)) new_message (new_reader bytes)

  -- `if (f != null) writer.writeMessage(1, f, …)`
  abbrev pub write_wrapped : Option j.Message → Writer → Result Writer
  write_wrapped none w = ok w
  write_wrapped (some f) w = write_message (Message.serialize_binary_to_writer j) 1 f w

  -- `if (f && f.getLength() > 0) f.serializeBinary(3, writer, …)`
  abbrev pub write_map : Option Map → Writer → Result Writer
  write_map none w = ok w
  write_map (some f) w =
      write_if j (ltb 0 (map_length f))
        (map_serialize_binary (Message.serialize_binary_to_writer j) 3 f) w

  -- `if (f.length > 0) writer.writePackedUint32(2, f)`
  abbrev pub write_uints : Value → Writer → Result Writer
  write_uints f w = has_length f >>= λ given. write_if j given (write_packed_uint32 2 f) w

  unfoldable pub serialize_binary_to_writer : j.Message → Writer → Result Writer
  serialize_binary_to_writer message w = do
    w1 ← write_wrapped (get_message message) w
    w2 ← write_uints (get_uints_list message) w1
    w3 ← write_map (find_messages_map message) w2
    write_if j (not (is_number 0 (get_count message))) (write_uint32 4 (get_count message)) w3

  unfoldable pub serialize_binary : j.Message → Result Bytes
  serialize_binary this =
      serialize_binary_to_writer this new_writer >>= λ w. ok (get_result_buffer w)

  abbrev pub message_type : MessageType j.Message
  message_type = record {
    id = 11;
    from_object = λ v. with_fields from_object v >>= λ m. m;
    to_object = to_object;
    serialize_binary = serialize_binary;
    deserialize_binary = deserialize_binary;
  }

  -- `pbrpc.Service`
  abbrev pub complicated_service : Service j.Message
  complicated_service = record {
    name = codes "complicated.Service";
    methods =
        (
          codes "Test",
          record {
            input_type = message_type;
            output_type = message_type;
            label = codes "undefined";
          },
        )
        ∷ [];
  }
