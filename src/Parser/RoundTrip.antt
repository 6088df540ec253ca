-- ===== src/Parser/RoundTrip.antt =====
-- What the receiver reads from a packet.
use pymaid.Prelude.{
  ℕ, ◌+◌, ◌/◌, ◌%◌, ◌^◌, ◌<◌, ◌++◌, ◌≡◌, [], ◌∷◌, refl, Bytes, length, take, Result, ok, ◌>>=◌,
  arith, ltb, false, take-all, append_assoc, length-append, take-append,
}
use pymaid.Js.{Value}
use pymaid.Parser.Buffer.{
  get_uint16, slice, set_bytes-fill, set_bytes-last, set_uint16-fill, slice_behind,
}
use pymaid.Parser.{pack, unpack}

abbrev pub header : ℕ → ℕ → Bytes
header a b = a / 256 % 256 ∷ a % 256 ∷ b / 256 % 256 ∷ b % 256 ∷ []

-- The buffer is the header, the context and the content, in this order.
pub pack_layout :
    (context content : Bytes)
    → pack context content ≡ header (length context) (length content) ++ (context ++ content)
unfolding pack
pack_layout context content =
    let a = length context in
    let b = length content in
    let h = header a b in
    let zeros : 4 + a + b ≡ 2 + (2 + (a + (b + 0))) = omega arith in
    rw
      (
        zeros,
        set_uint16-fill [] a (2 + (a + (b + 0))),
        set_uint16-fill (a / 256 % 256 ∷ a % 256 ∷ []) b (a + (b + 0)),
        set_bytes-fill h context (b + 0),
      )
      (set_bytes-last h context content (4 + a) (omega arith))

sizes_lem :
    (a b : ℕ) (rest : Bytes)
    → (get_uint16 0 (header a b ++ rest) ≡ a % 2 ^ 16)
      × (get_uint16 2 (header a b ++ rest) ≡ b % 2 ^ 16)
unfolding get_uint16
sizes_lem a b rest = (omega arith, omega arith)

slice_content :
    (h context content : Bytes) (first n : ℕ)
    → first ≡ length h + length context
    → slice first (first + n) (h ++ (context ++ content)) ≡ take n content
slice_content h context content first n p =
    rw (← append_assoc h context content)
      (slice_behind (h ++ context) content first n (omega (arith, length-append h context)))

module _ (deserialize_context : Bytes → Result Value) where
  -- A packet whose context is shorter than 2 ^ 16 bytes is unpacked to its context and to the first
  -- `n % 2 ^ 16` of the `n` bytes of its content, since the header holds the low 16 bits of `n`.
  pub unpack-pack :
      (context content : Bytes)
      → length context < 2 ^ 16
      → unpack deserialize_context (pack context content) ≡ (
          deserialize_context context >>= λ c.
          ok (record { context = c; content = take (length content % 2 ^ 16) content }))
  unfolding unpack
  unpack-pack context content small =
      let a = length context in
      let b = length content in
      let h = header a b in
      let exact : a % 2 ^ 16 ≡ a = omega arith in
      let (first, second) = sizes_lem a b (context ++ content) in
      let long : ltb (length (h ++ (context ++ content))) 4 ≡ false = ground arith in
      rw (
        pack_layout context content,
        first,
        second,
        exact,
        slice_behind h (context ++ content) 4 a refl,
        slice_content h context content (4 + a) (b % 2 ^ 16) (omega arith),
        take-append context content,
        long,
      )

  -- So contexts and contents shorter than 2 ^ 16 bytes come back whole.
  pub unpack-pack_small :
      (context content : Bytes)
      → length context < 2 ^ 16
      → length content < 2 ^ 16
      → unpack deserialize_context (pack context content)
        ≡ (deserialize_context context >>= λ c. ok (record { context = c; content = content }))
  unpack-pack_small context content small fits =
      let exact : length content % 2 ^ 16 ≡ length content = omega arith in
      let all : take (length content) content ≡ content = take-all content in
      rw (unpack-pack context content small, exact, all)
