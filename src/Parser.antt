-- ===== src/Parser.antt =====
-- `PBParser` of plugin/js/pymaid.js: a packet is a header of two big-endian 16-bit sizes, the
-- context and the content.
pub mod Buffer
pub mod RoundTrip
pub mod Bounds
use pymaid.Prelude.{
  ℕ, ◌+◌, ◌<◌, length, ltb, if◌then◌else◌, Bytes, Result, ok, throw, range_error, ◌>>=◌, replicate,
}
use pymaid.Js.{Value}
use Buffer.{set_uint16, get_uint16, set_bytes, slice}

abbrev pub header_size : ℕ
header_size = 4

unfoldable pub pack : Bytes → Bytes → Bytes
pack context_binary content_binary =
    let ctx_size = length context_binary in
    let content_size = length content_binary in
    let ab = replicate (header_size + ctx_size + content_size) 0 in
    let sized = set_uint16 2 content_size (set_uint16 0 ctx_size ab) in
    set_bytes (4 + ctx_size) content_binary (set_bytes 4 context_binary sized)

pub record Packet : Type 0 where
  pub context : Value
  pub content : Bytes

-- `deserialize_context` is `pb.deserialize(pb.Context, _)`.
module _ (deserialize_context : Bytes → Result Value) where
  unfoldable pub unpack : Bytes → Result Packet
  unpack ab =
      if ltb (length ab) 4
      then throw range_error
      else (let ctx_limit = header_size + get_uint16 0 ab in
          deserialize_context (slice header_size ctx_limit ab) >>= λ context. ok (record {
            context = context;
            content = slice ctx_limit (ctx_limit + get_uint16 2 ab) ab;
          }))
