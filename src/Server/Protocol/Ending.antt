-- ===== src/Server/Protocol/Ending.antt =====
-- The loop of `feed_data` ends, whatever the bytes.
use pymaid.Prelude.{
  ℕ, zero, suc, ◌+◌, ◌≤◌, ◌<◌, ◌≡◌, refl, ◌++◌, List, [], ◌∷◌, Bytes, length, length-drop, drop,
  Result, ok, throw, unfinished, arith, Ends, Ends->>=, if_cases, ltb,
}
use pymaid.Parser.Buffer.{slice}
use pymaid.Server.Protocol.{
  MessageClass, Decoded, incomplete, packet, decode, decode_sized, decode_body, unpack_header,
  after_decoding, feed_loop, feed_data,
}
use pymaid.Server.Protocol.Framing.{packet_bounds}
use pymaid.Server.Protocol.Streams.{Stream-feed_data, Stream-stops}

module _ {M : Type 0} (metas : MessageClass M)
    (reads : (bytes : Bytes) → Ends (λ m. Unit {0}) (metas.from_string bytes)) where
  decode-Ends : (xs : Bytes) → Ends (λ d. Unit {0}) (decode metas xs)
  unfolding decode decode_sized decode_body
  decode-Ends xs =
      let (a, b) = unpack_header (slice 0 4 xs) in
      if_cases (Ends (λ d. Unit {0})) (ltb (length xs) 4) _ _ (λ short. tt)
        λ long.
          if_cases (Ends (λ d. Unit {0})) (ltb (length xs) (4 + a + b)) _ _ (λ short. tt)
            λ there.
              if_cases (Ends (λ d. Unit {0})) (ltb 8192 b) _ _ (λ large. tt)
                λ fits.
                  Ends->>= (λ m. Unit {0}) (λ d. Unit {0}) (metas.from_string (slice 4 (4 + a) xs))
                    _ (reads _) λ m u. tt

  feed_loop-Ends :
      (fuel used : ℕ) (before : List (M × Bytes)) (xs : Bytes)
      → length xs < fuel
      → Ends (λ r. r.0 ≤ used + length xs) (feed_loop metas fuel used before xs)
  unfolding feed_loop
  feed_loop-Ends zero used before xs enough = absurd (omega arith)
  feed_loop-Ends (suc fuel) used before xs enough =
      by_decoding (decode metas xs) refl (decode-Ends xs)
        λ n m p. feed_loop-Ends fuel (used + n) (before ++ (m, p) ∷ []) (drop n xs)
    where
      by_decoding :
          (d : Result (Decoded M))
          → decode metas xs ≡ d
          → Ends (λ d. Unit {0}) d
          → ((n : ℕ) (m : M) (p : Bytes)
              → length (drop n xs) < fuel
              → Ends
                  (λ r. r.0 ≤ used + n + length (drop n xs))
                  (feed_loop metas fuel (used + n) (before ++ (m, p) ∷ []) (drop n xs)))
          → Ends
              (λ r. r.0 ≤ used + length xs)
              (after_decoding metas (feed_loop metas fuel) used before xs d)
      by_decoding (ok incomplete) is ends more = omega arith
      by_decoding (ok (packet n m p)) is ends more =
          let (least, most) = packet_bounds metas xs n m p is in
          let left = length-drop n xs in
          let sum : used + n + length (drop n xs) ≡ used + length xs = omega arith in
          rw (← sum) (more n m p (omega arith))
      by_decoding (throw x) is ends more = tt
      by_decoding unfinished is ends more = ends

  -- What the loop returns, when it returns: how much of the bytes it used, with no complete packet left.
  abbrev pub Consumes : Bytes → ℕ × List (M × Bytes) → Type 0
  Consumes xs (used, ms) = (used ≤ length xs) × (decode metas (drop used xs) ≡ ok incomplete)

  -- `feed_data` returns or raises on any bytes, if parsing a Context does. What it returns is how many of
  -- the bytes it used, and in those that are left there is no complete packet.
  pub feed_data-Ends : (xs : Bytes) → Ends (Consumes xs) (feed_data metas xs)
  unfolding feed_data
  feed_data-Ends xs =
      by_result (feed_data metas xs) refl (feed_loop-Ends (suc (length xs)) 0 [] xs (omega arith))
    where
      by_result :
          (r : Result (ℕ × List (M × Bytes)))
          → feed_data metas xs ≡ r
          → Ends (λ r. r.0 ≤ 0 + length xs) r
          → Ends (Consumes xs) r
      by_result (ok (u, ms)) is ends =
          (omega arith, Stream-stops metas (Stream-feed_data metas xs u ms is))
      by_result (throw e) is ends = tt
      by_result unfinished is ends = ends
