-- ===== src/Server/Protocol.antt =====
-- `Protocol` of pymaid/rpc/pb/protocol.py: the server's side of the wire, over the protobuf runtime.
pub mod Framing
pub mod Streams
pub mod Ending
pub mod Packets
use pymaid.Prelude.{
  ℕ, zero, suc, ◌+◌, ◌*◌, ◌/◌, ◌%◌, ◌^◌, ◌<◌, ◌++◌, ◌&&◌, List, [], ◌∷◌, Bytes, length, drop, ltb,
  if◌then◌else◌, Result, ok, throw, unfinished, struct_error, attribute_error, ◌>>=◌,
}
use pymaid.Parser.Buffer.{get_uint16, slice}

-- What the code calls of a class of messages.
pub record MessageClass (M : Type 0) : Type 0 where
  pub byte_size : M → ℕ
  pub serialize_to_string : M → Bytes
  pub from_string : Bytes → Result M

abbrev pub header_size : ℕ
header_size = 4

abbrev pub max_packet_length : ℕ
max_packet_length = 8 * 1024

-- `HEADER_STRUCT.pack(a, b)` for `!HH`: a number that does not fit 16 bits is an error.
unfoldable pub pack_header : ℕ → ℕ → Result Bytes
pack_header a b =
    if ltb a (2 ^ 16) && ltb b (2 ^ 16)
    then ok (a / 256 ∷ a % 256 ∷ b / 256 ∷ b % 256 ∷ [])
    else throw struct_error

-- `HEADER_STRUCT.unpack`, of four bytes.
unfoldable pub unpack_header : Bytes → ℕ × ℕ
unfolding get_uint16
unpack_header bytes = (get_uint16 0 bytes, get_uint16 2 bytes)

-- What `decode` returns: `incomplete` is `0, None, None`.
pub data Decoded (M : Type 0) : Type 0 where
  incomplete : Decoded M
  packet : ℕ → M → Bytes → Decoded M

module _ {M N : Type 0} (metas : MessageClass M) (messages : MessageClass N) where
  unfoldable pub encode : M → N → Result Bytes
  unfolding pack_header
  encode meta message = pack_header (metas.byte_size meta) (messages.byte_size message) >>= λ h.
      ok (h ++ (metas.serialize_to_string meta ++ messages.serialize_to_string message))

module _ {M : Type 0} (metas : MessageClass M) where
  -- The packet is there. `PBError` has no `PacketTooLarge` to raise.
  unfoldable pub decode_body : ℕ → ℕ → Bytes → Result (Decoded M)
  unfolding slice
  decode_body meta_size payload_size data_view =
      let used_size = header_size + meta_size + payload_size in
      if ltb max_packet_length payload_size
      then throw attribute_error
      else (metas.from_string (slice header_size (header_size + meta_size) data_view) >>= λ meta.
          ok (packet used_size meta (slice (header_size + meta_size) used_size data_view)))

  unfoldable pub decode_sized : ℕ × ℕ → Bytes → Result (Decoded M)
  unfolding decode_body
  decode_sized (meta_size, payload_size) data_view =
      if ltb (length data_view) (header_size + meta_size + payload_size)
      then ok incomplete
      else decode_body meta_size payload_size data_view

  unfoldable pub decode : Bytes → Result (Decoded M)
  unfolding decode_sized unpack_header slice
  decode data_view =
      if ltb (length data_view) header_size
      then ok incomplete
      else decode_sized (unpack_header (slice 0 header_size data_view)) data_view

  -- One round of the loop of `feed_data`, with `go` for the rounds that follow.
  abbrev pub after_decoding :
      (ℕ → List (M × Bytes) → Bytes → Result (ℕ × List (M × Bytes)))
      → ℕ
      → List (M × Bytes)
      → Bytes
      → Result (Decoded M)
      → Result (ℕ × List (M × Bytes))
  after_decoding go used_size messages data_view (ok incomplete) = ok (used_size, messages)
  after_decoding go used_size messages data_view (ok (packet consumed meta payload)) =
      go (used_size + consumed) (messages ++ (meta, payload) ∷ []) (drop consumed data_view)
  after_decoding go used_size messages data_view (throw e) = throw e
  after_decoding go used_size messages data_view unfinished = unfinished

  unfoldable pub feed_loop : ℕ → ℕ → List (M × Bytes) → Bytes → Result (ℕ × List (M × Bytes))
  unfolding decode
  feed_loop zero used_size messages data_view = unfinished
  feed_loop (suc fuel) used_size messages data_view =
      after_decoding (feed_loop fuel) used_size messages data_view (decode data_view)

  -- A packet takes four bytes at least, so that there are fewer rounds than bytes.
  unfoldable pub feed_data : Bytes → Result (ℕ × List (M × Bytes))
  unfolding feed_loop
  feed_data data_view = feed_loop (suc (length data_view)) 0 [] data_view
