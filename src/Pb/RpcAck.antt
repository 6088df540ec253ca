-- ===== src/Pb/RpcAck.antt =====
-- `proto.pymaid.rpc.pb.RpcAck`, which has no fields.
use pymaid.Prelude.{ℕ, suc, Bytes, length, Result, ok, ◌>>=◌}
use pymaid.Js.{Value, obj, Fields, end}
use pymaid.Jspb.{Jspb}
use pymaid.Pb.Wire.{read_loop}

module _ (j : Jspb) where
  open j use {
    Message, Writer, Reader, initialize, new_writer, get_result_buffer, new_reader, skip_field,
  }

  unfoldable pub to_object : Message → Value
  to_object msg = obj end

  unfoldable pub from_object : Fields → Message
  from_object o = initialize

  -- The `switch` has its default case alone.
  unfoldable pub read_field : ℕ → Message → Reader → Result (Message × Reader)
  read_field n msg reader = skip_field reader >>= λ r. ok (msg, r)

  unfoldable pub deserialize_binary_from_reader : ℕ → Message → Reader → Result Message
  deserialize_binary_from_reader fuel msg reader = read_loop j read_field fuel msg reader

  -- A field takes a byte at least, so there are no more rounds than bytes.
  unfoldable pub deserialize_binary : Bytes → Result Message
  deserialize_binary bytes =
      deserialize_binary_from_reader (suc (length bytes)) initialize (new_reader bytes)

  unfoldable pub serialize_binary_to_writer : Message → Writer → Result Writer
  serialize_binary_to_writer message writer = ok writer

  unfoldable pub serialize_binary : Message → Result Bytes
  serialize_binary this =
      serialize_binary_to_writer this new_writer >>= λ w. ok (get_result_buffer w)
