-- ===== src/Server/Protocol/Framing.antt =====
-- How a stream of bytes falls into packets, whatever the pieces that it comes in.
use pymaid.Prelude.{
  ℕ, zero, suc, ◌+◌, ◌*◌, Bool, ◌≢◌, if◌then◌else◌, attribute_error, ◌-◌, ◌≤◌, ◌≡◌, refl, sym, ◌∙◌,
  ◌++◌, ◌⊎◌, inl, inr, true, false, [], ◌∷◌, Bytes, length, length-append, length-drop, drop, take,
  ltb, Bool-cases, Result, ok, throw, unfinished, ◌>>=◌, append-nil, arith,
}
use pymaid.Parser.Buffer.{get_uint16, slice}
use pymaid.Server.Protocol.{
  MessageClass, incomplete, packet, unpack_header, decode_body, decode_sized, decode,
}

take-append_le : (n : ℕ) (xs ys : Bytes) → n ≤ length xs → take n (xs ++ ys) ≡ take n xs
take-append_le zero xs ys h = refl
take-append_le (suc n) [] ys h = absurd (omega arith)
take-append_le (suc n) (x ∷ xs) ys h = rw (take-append_le n xs ys (omega arith)) refl

pub drop-append_le : (n : ℕ) (xs ys : Bytes) → n ≤ length xs → drop n (xs ++ ys) ≡ drop n xs ++ ys
drop-append_le zero xs ys h = refl
drop-append_le (suc n) [] ys h = absurd (omega arith)
drop-append_le (suc n) (x ∷ xs) ys h = drop-append_le n xs ys (omega arith)

slice-append :
    (first limit : ℕ) (xs ys : Bytes)
    → first ≤ limit
    → limit ≤ length xs
    → slice first limit (xs ++ ys) ≡ slice first limit xs
unfolding slice
slice-append first limit xs ys h k =
    let left = length-drop first xs in
    rw (drop-append_le first xs ys (omega arith))
      (take-append_le (limit - first) (drop first xs) ys (omega arith))

module _ {M : Type 0} (metas : MessageClass M) where
  -- A packet that is there is not changed by what comes behind it.
  decode_body-append :
      (a b : ℕ) (xs ys : Bytes)
      → 4 + a + b ≤ length xs
      → decode_body metas a b (xs ++ ys) ≡ decode_body metas a b xs
  unfolding decode_body
  decode_body-append a b xs ys h = rw (
    slice-append 4 (4 + a) xs ys (omega arith) (omega arith),
    slice-append (4 + a) (4 + a + b) xs ys (omega arith) h,
  )

  -- The sizes of a header that is there.
  abbrev Sized : ℕ → ℕ → Bytes → Type 0
  Sized a b xs = (ys : Bytes) → decode metas (xs ++ ys) ≡ decode_sized metas (a, b) (xs ++ ys)

  decode-cases :
      (xs : Bytes)
      → (decode metas xs ≡ ok incomplete) ⊎ ((a : ℕ) × (b : ℕ) × (4 ≤ length xs) × Sized a b xs)
  unfolding decode unpack_header get_uint16 slice
  decode-cases [] = inl refl
  decode-cases (b0 ∷ []) = inl refl
  decode-cases (b0 ∷ b1 ∷ []) = inl refl
  decode-cases (b0 ∷ b1 ∷ b2 ∷ []) = inl refl
  decode-cases (b0 ∷ b1 ∷ b2 ∷ b3 ∷ rest) = inr (
    b0 * 256 + b1,
    b2 * 256 + b3,
    omega arith,
    λ ys.
        let long : ltb (length (b0 ∷ b1 ∷ b2 ∷ b3 ∷ (rest ++ ys))) 4 ≡ false = ground arith in
        rw long refl,
  )

  -- The packet that a body makes has the size that its header says.
  built :
      (t : Bool) (r : Result M) (u n : ℕ) (m : M) (payload p : Bytes)
      → (if t then throw attribute_error else (r >>= λ meta. ok (packet u meta payload)))
        ≡ ok (packet n m p)
      → n ≡ u
  built true r u n m payload p e = cc
  built false (ok x) u n m payload p e = cc
  built false (throw x) u n m payload p e = cc
  built false unfinished u n m payload p e = cc

  never_incomplete :
      (t : Bool) (r : Result M) (u : ℕ) (payload : Bytes)
      → (if t then throw attribute_error else (r >>= λ meta. ok (packet u meta payload)))
        ≢ ok incomplete
  never_incomplete true r u payload e = cc
  never_incomplete false (ok x) u payload e = cc
  never_incomplete false (throw x) u payload e = cc
  never_incomplete false unfinished u payload e = cc

  decode_sized-packet :
      (a b n : ℕ) (m : M) (xs p : Bytes)
      → decode_sized metas (a, b) xs ≡ ok (packet n m p)
      → (n ≡ 4 + a + b) × (n ≤ length xs)
  unfolding decode_sized decode_body
  decode_sized-packet a b n m xs p e = elim (Bool-cases (ltb (length xs) (4 + a + b))) [
    | inl short ↦ absurd (let f = rw short at e in cc)
    | inr long ↦
        let size =
          built (ltb 8192 b) (metas.from_string (slice 4 (4 + a) xs)) (4 + a + b) n m _ p
            (rw long at e) in
        (size, ground arith)
  ]

  -- Behind a decoded packet there is less: it takes four bytes or more, and no more than there are.
  pub packet_bounds :
      (xs : Bytes) (n : ℕ) (m : M) (p : Bytes)
      → decode metas xs ≡ ok (packet n m p)
      → (4 ≤ n) × (n ≤ length xs)
  packet_bounds xs n m p e = elim (decode-cases xs) [
    | inl none_yet ↦ absurd (cc)
    | inr (a, b, long, sized) ↦
        let whole = append-nil xs in
        let (size, fits) = decode_sized-packet a b n m xs p (sym (rw whole at (sized [])) ∙ e) in
        omega arith
  ]

  -- What comes behind a decoded packet, or one that is to come, does not matter.
  pub decode-prefix :
      (xs ys : Bytes) (n : ℕ) (m : M) (p : Bytes)
      → decode metas (xs ++ ys) ≡ ok (packet n m p)
      → (decode metas xs ≡ ok incomplete) ⊎ (decode metas xs ≡ ok (packet n m p))
  unfolding decode_sized
  decode-prefix xs ys n m p e = elim (decode-cases xs) [
    | inl none_yet ↦ inl none_yet
    | inr (a, b, long, sized) ↦
        let whole : decode metas xs ≡ decode_sized metas (a, b) xs =
          rw (append-nil xs) at (sized []) in
        elim (Bool-cases (ltb (length xs) (4 + a + b))) [
          | inl little ↦ inl (whole ∙ rw little)
          | inr there ↦
              let e' = sym (sized ys) ∙ e in
              let more : ltb (length (xs ++ ys)) (4 + a + b) ≡ false =
                ground (arith, length-append {0} xs ys) in
              inr (
                whole
                ∙ rw there (sym (decode_body-append a b xs ys (ground arith)) ∙ (rw more at e')))
        ]
  ]

  pub decode-prefix_incomplete :
      (xs ys : Bytes) → decode metas (xs ++ ys) ≡ ok incomplete → decode metas xs ≡ ok incomplete
  unfolding decode_sized decode_body
  decode-prefix_incomplete xs ys e = elim (decode-cases xs) [
    | inl none_yet ↦ none_yet
    | inr (a, b, long, sized) ↦
        let whole : decode metas xs ≡ decode_sized metas (a, b) xs =
          rw (append-nil xs) at (sized []) in
        elim (Bool-cases (ltb (length (xs ++ ys)) (4 + a + b))) [
          | inl little ↦
              let less : ltb (length xs) (4 + a + b) ≡ true =
                ground (arith, length-append {0} xs ys) in
              whole ∙ rw less
          | inr there ↦
              let e' = sym (sized ys) ∙ e in
              absurd (
                never_incomplete (ltb 8192 b) (metas.from_string (slice 4 (4 + a) (xs ++ ys)))
                  (4 + a + b) _ (rw there at e'))
        ]
  ]
