-- ===== src/Parser/Bounds.antt =====
-- The sizes of packets, and the range of their bytes.
use pymaid.Prelude.{
  ℕ, zero, suc, ◌+◌, ◌-◌, ◌≤◌, ◌<◌, ◌^◌, ◌≡◌, ap, sym, [], ◌∷◌, ◌++◌, Bytes, All, All-append,
  length, length-append, length-take, length-drop, take, drop, Result, ok, throw, unfinished, ◌>>=◌,
  arith, get_elem?, Bool-cases, inl, inr, ltb,
}
use pymaid.Js.{Value}
use pymaid.Parser.{pack, unpack, Packet}
use pymaid.Parser.Buffer.{get_uint16, slice, byte}
use pymaid.Parser.RoundTrip.{pack_layout, header}

abbrev pub IsByte : ℕ → Type 0
IsByte b = b < 256

-- A packet of bytes is a list of bytes, four longer than its context and its content.
pub pack_bounds :
    (context content : Bytes)
    → All IsByte context
    → All IsByte content
    → All IsByte (pack context content)
      × (length (pack context content) ≡ 4 + length context + length content)
pack_bounds context content h k =
    let parts = length-append {0} context content in
    rw (pack_layout context content) (
      All-append IsByte (header (length context) (length content)) (context ++ content)
          (omega arith) (All-append IsByte context content h k),
      omega arith,
    )

byte_bound : (bytes : Bytes) (n : ℕ) → All IsByte bytes → byte (get_elem? bytes n) < 256
byte_bound [] n h = omega arith
byte_bound (b ∷ bytes) zero h = h.0
byte_bound (b ∷ bytes) (suc n) h = byte_bound bytes n h.1

content_of :
    (r : Result Value) (content : Bytes) (p : Packet)
    → (r >>= λ c. ok (record { context = c; content = content })) ≡ ok p
    → p.content ≡ content
content_of (ok c) content p e = sym (cc)
content_of (throw x) content p e = cc
content_of unfinished content p e = cc

get_uint16_bound : (n : ℕ) (bytes : Bytes) → All IsByte bytes → get_uint16 n bytes < 2 ^ 16
unfolding get_uint16
get_uint16_bound n bytes h =
    let high = byte_bound bytes n h in let low = byte_bound bytes (n + 1) h in omega arith

-- What is unpacked from bytes has a content of less than 2 ^ 16 bytes, and these and a header are no more
-- than there are bytes.
pub unpack_bounds :
    (deserialize_context : Bytes → Result Value) (ab : Bytes) (p : Packet)
    → All IsByte ab
    → unpack deserialize_context ab ≡ ok p
    → (length p.content < 2 ^ 16) × (length p.content + 4 ≤ length ab)
unfolding unpack slice
unpack_bounds deserialize_context ab p h e = elim (Bool-cases (ltb (length ab) 4)) [
  | inl short ↦ cc (rw short at e)
  | inr long ↦
      let n = get_uint16 2 ab in
      let first = 4 + get_uint16 0 ab in
      let whole : p.content ≡ take (first + n - first) (drop first ab) =
        content_of (deserialize_context (slice 4 first ab)) _ p (rw long at e) in
      let behind = length-drop first ab in
      let cut = length-take (first + n - first) (drop first ab) in
      let size : length p.content ≡ length (take (first + n - first) (drop first ab)) =
        ap length whole in
      let room : 4 ≤ length ab = ground arith in let few = get_uint16_bound 2 ab h in omega arith
]
