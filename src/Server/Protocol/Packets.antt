-- ===== src/Server/Protocol/Packets.antt =====
-- The packets of the client's parser and of the server's, as the server's parser takes them.
use pymaid.Prelude.{
  ◌+◌, ◌*◌, ◌/◌, ◌%◌, ◌≤◌, ◌<◌, ◌^◌, ◌≡◌, refl, ap, ◌∙◌, ◌++◌, List, [], ◌∷◌, true, false, Bytes,
  length, length-append, length-drop, take-append, drop-append, append_assoc, ltb, ok, throw,
  attribute_error, ◌>>=◌, All, arith,
}
use pymaid.Parser.{pack}
use pymaid.Parser.Buffer.{get_uint16, slice, slice_behind}
use pymaid.Parser.RoundTrip.{pack_layout, header}
use pymaid.Server.Protocol.{
  MessageClass, incomplete, packet, pack_header, unpack_header, encode, decode_body, decode_sized,
  decode, feed_data,
}
use pymaid.Server.Protocol.Streams.{Stream, stop, next, feed_data-Stream}

-- `byte_size` is the size of what is serialized.
abbrev pub IsSized : {M : Type 0} → MessageClass M → Type 0
IsSized {M} c = (m : M) → c.byte_size m ≡ length (c.serialize_to_string m)

module _ {M : Type 0} (metas : MessageClass M) where
  decode_header :
      (head body rest : Bytes)
      → length head < 2 ^ 16
      → length body < 2 ^ 16
      → decode metas (pack head body ++ rest)
        ≡ decode_body metas (length head) (length body) (pack head body ++ rest)
  unfolding decode decode_sized unpack_header get_uint16 slice
  decode_header head body rest small short =
      let a = length head in
      let b = length body in
      let high : a / 256 % 256 * 256 + a % 256 ≡ a = omega arith in
      let low : b / 256 % 256 * 256 + b % 256 ≡ b = omega arith in
      let parts = length-append {0} (head ++ body) rest in
      let halves = length-append {0} head body in
      let long : ltb (length (header a b ++ ((head ++ body) ++ rest))) 4 ≡ false = ground arith in
      let whole : ltb (length (header a b ++ ((head ++ body) ++ rest))) (4 + a + b) ≡ false =
        ground arith in
      rw (pack_layout head body, long, high, low, whole) refl

  body_slices :
      (head body rest : Bytes)
      → (slice 4 (4 + length head) (pack head body ++ rest) ≡ head)
        × (slice (4 + length head) (4 + length head + length body) (pack head body ++ rest) ≡ body)
  body_slices head body rest =
      let a = length head in
      let b = length body in
      let h = header a b in
      let split = append_assoc {0} head body rest in
      let behind : 4 + a ≡ length (h ++ head) = omega (arith, length-append {0} h head) in
      (
        rw (pack_layout head body, split)
            (slice_behind h (head ++ (body ++ rest)) 4 a refl ∙ take-append head (body ++ rest)),
        rw (pack_layout head body, split)
            (slice_behind (h ++ head) (body ++ rest) (4 + a) b behind ∙ take-append body rest),
      )

  -- The client's packet of a content that the server takes, whatever comes behind it.
  pub decode-pack :
      (head body rest : Bytes)
      → length head < 2 ^ 16
      → length body ≤ 8192
      → decode metas (pack head body ++ rest)
        ≡ (metas.from_string head >>= λ m. ok (packet (4 + length head + length body) m body))
  unfolding decode_body
  decode-pack head body rest small short =
      let (first, second) = body_slices head body rest in
      let fits : ltb 8192 (length body) ≡ false = ground arith in
      decode_header head body rest small (omega arith) ∙ rw (fits, first, second)

  -- A packet whose content has more than 8192 bytes, which the client packs, is refused by an
  -- AttributeError: the class that is to be raised is not defined where it is looked up.
  pub decode-pack_large :
      (head body rest : Bytes)
      → length head < 2 ^ 16
      → 8192 < length body
      → length body < 2 ^ 16
      → decode metas (pack head body ++ rest) ≡ throw attribute_error
  unfolding decode_body
  decode-pack_large head body rest small large short =
      let much : ltb 8192 (length body) ≡ true = ground arith in
      decode_header head body rest small short ∙ rw much

  pub decode-nil : decode metas [] ≡ ok incomplete
  unfolding decode
  decode-nil = refl

  -- A context's bytes and value, and a content, that the server takes.
  abbrev pub Takes : Bytes × M × Bytes → Type 0
  Takes (head, m, body) =
      (length head < 2 ^ 16) × (length body ≤ 8192) × (metas.from_string head ≡ ok m)

  abbrev pub packed : List (Bytes × M × Bytes) → Bytes
  packed [] = []
  packed ((head, m, body) ∷ ps) = pack head body ++ packed ps

  abbrev pub taken : List (Bytes × M × Bytes) → List (M × Bytes)
  taken [] = []
  taken ((head, m, body) ∷ ps) = (m, body) ∷ taken ps

  pub Stream-packed :
      (ps : List (Bytes × M × Bytes)) (rest : Bytes)
      → All Takes ps
      → decode metas rest ≡ ok incomplete
      → Stream metas (packed ps ++ rest) (taken ps) rest
  Stream-packed [] rest h e = stop rest rest refl e
  Stream-packed ((head, m, body) ∷ ps) rest ((small, short, reads), h) e =
      let size : 4 + length head + length body ≡ length (pack head body) =
        rw (pack_layout head body) (omega (arith, length-append {0} head body)) in
      let here = decode-pack head body (packed ps ++ rest) small short ∙ rw reads in
      rw (append_assoc (pack head body) (packed ps) rest) (
        next {ms = taken ps} {rest = rest} (pack head body ++ (packed ps ++ rest))
          (4 + length head + length body) m body here
          (rw (size, drop-append (pack head body) (packed ps ++ rest)) (Stream-packed ps rest h e)))

  -- Packets in a row, of contexts that can be parsed and of contents of up to 8192 bytes, and behind them
  -- bytes with no complete packet: `feed_data` returns all the packets in their order, and has used their
  -- bytes and none of the others.
  pub feed_data-packed :
      (ps : List (Bytes × M × Bytes)) (rest : Bytes)
      → All Takes ps
      → decode metas rest ≡ ok incomplete
      → feed_data metas (packed ps ++ rest) ≡ ok (length (packed ps), taken ps)
  feed_data-packed ps rest h e =
      let (k, fed, drops, fits) = feed_data-Stream metas (Stream-packed ps rest h e) in
      let parts = length-append {0} (packed ps) rest in
      let left = length-drop k (packed ps ++ rest) in
      let sizes = ap length drops in
      let all_used : k ≡ length (packed ps) = omega arith in fed ∙ rw all_used

module _ {M N : Type 0} (metas : MessageClass M) (messages : MessageClass N) (sized : IsSized metas)
    (sized_messages : IsSized messages) where
  -- The server's packet of a context and a message, both shorter than 2 ^ 16 bytes, is the one that the
  -- client's parser would make of their bytes.
  pub encode-pack :
      (m : M) (n : N)
      → length (metas.serialize_to_string m) < 2 ^ 16
      → length (messages.serialize_to_string n) < 2 ^ 16
      → encode metas messages m n
        ≡ ok (pack (metas.serialize_to_string m) (messages.serialize_to_string n))
  unfolding encode pack_header
  encode-pack m n small short =
      let a = length (metas.serialize_to_string m) in
      let b = length (messages.serialize_to_string n) in
      let fits : ltb a (2 ^ 16) ≡ true = ground arith in
      let fits' : ltb b (2 ^ 16) ≡ true = ground arith in
      let high : a / 256 % 256 ≡ a / 256 = omega arith in
      let high' : b / 256 % 256 ≡ b / 256 = omega arith in
      rw (
        sized m,
        sized_messages n,
        fits,
        fits',
        pack_layout (metas.serialize_to_string m) (messages.serialize_to_string n),
        high,
        high',
      )
