-- ===== src/Server/Protocol/Streams.antt =====
-- What `feed_data` makes of a stream, and of the pieces of one.
use pymaid.Prelude.{
  ℕ, zero, suc, ◌+◌, ◌≤◌, ◌<◌, ◌≡◌, refl, sym, ap, ◌∙◌, ◌++◌, ◌⊎◌, inl, inr, List, [], ◌∷◌, Bytes,
  length, length-drop, drop, Result, ok, throw, unfinished, append_assoc, append-nil, arith,
}
use pymaid.Server.Protocol.{
  MessageClass, Decoded, incomplete, packet, decode, after_decoding, feed_loop, feed_data,
}
use pymaid.Server.Protocol.Framing.{
  drop-append_le, packet_bounds, decode-prefix, decode-prefix_incomplete,
}

drop-nil : (k : ℕ) → drop {A = ℕ} k [] ≡ []
drop-nil zero = refl
drop-nil (suc k) = refl

pub drop-drop : (n k : ℕ) (xs : Bytes) → drop k (drop n xs) ≡ drop (n + k) xs
drop-drop zero k xs = ap (λ i. drop i xs) (omega arith)
drop-drop (suc n) k [] = drop-nil k ∙ sym (drop-nil (suc n + k))
drop-drop (suc n) k (x ∷ xs) =
    let sum : suc n + k ≡ suc (n + k) = omega arith in rw sum (drop-drop n k xs)

module _ {M : Type 0} (metas : MessageClass M) where
  -- The bytes are these packets and a rest in which no packet is complete.
  pub data Stream : Bytes → List (M × Bytes) → Bytes → Type 0 where
    stop : (xs rest : Bytes) → xs ≡ rest → decode metas xs ≡ ok incomplete → Stream xs [] rest
    next :
        {ms : List (M × Bytes)} {rest : Bytes} (xs : Bytes) (n : ℕ) (m : M) (p : Bytes)
        → decode metas xs ≡ ok (packet n m p)
        → Stream (drop n xs) ms rest
        → Stream xs ((m, p) ∷ ms) rest

  feed_loop-Stream :
      (fuel used : ℕ) (before : List (M × Bytes)) {xs : Bytes} {ms : List (M × Bytes)}
      {rest : Bytes}
      → Stream xs ms rest
      → length xs < fuel
      → (k : ℕ) × (feed_loop metas fuel used before xs ≡ ok (used + k, before ++ ms))
        × (drop k xs ≡ rest)
        × (k ≤ length xs)
  unfolding feed_loop
  feed_loop-Stream zero used before s enough = absurd (omega arith)
  feed_loop-Stream (suc fuel) used before (stop xs rest same e) enough =
      let sum : used + 0 ≡ used = omega arith in
      (0, rw (e, append-nil before, sum), same, omega arith)
  feed_loop-Stream (suc fuel) used before (next {ms} xs n m p e s) enough =
      let (least, most) = packet_bounds metas xs n m p e in
      let left = length-drop n xs in
      let (k, fed, drops, fits) =
        feed_loop-Stream fuel (used + n) (before ++ (m, p) ∷ []) s (omega arith) in
      let sum : used + n + k ≡ used + (n + k) = omega arith in
      (
        n + k,
        rw (e, fed, sum, append_assoc before ((m, p) ∷ []) ms) refl,
        sym (drop-drop n k xs) ∙ drops,
        omega arith,
      )

  -- The other way: what was fed is such a stream.
  abbrev Fed : ℕ → List (M × Bytes) → Bytes → ℕ → List (M × Bytes) → Type 0
  Fed used before xs u all =
      (k : ℕ) × (ms : List (M × Bytes)) × (u ≡ used + k)
      × (all ≡ before ++ ms)
      × Stream xs ms (drop k xs)

  Stream-feed_loop :
      (fuel used : ℕ) (before : List (M × Bytes)) (xs : Bytes) (u : ℕ) (all : List (M × Bytes))
      → feed_loop metas fuel used before xs ≡ ok (u, all)
      → Fed used before xs u all
  unfolding feed_loop
  Stream-feed_loop zero used before xs u all e = cc
  Stream-feed_loop (suc fuel) used before xs u all e =
      by_decoding (decode metas xs) refl e
        λ n m p. Stream-feed_loop fuel (used + n) (before ++ (m, p) ∷ []) (drop n xs) u all
    where
      by_decoding :
          (d : Result (Decoded M))
          → decode metas xs ≡ d
          → after_decoding metas (feed_loop metas fuel) used before xs d ≡ ok (u, all)
          → ((n : ℕ) (m : M) (p : Bytes)
              → feed_loop metas fuel (used + n) (before ++ (m, p) ∷ []) (drop n xs) ≡ ok (u, all)
              → Fed (used + n) (before ++ (m, p) ∷ []) (drop n xs) u all)
          → Fed used before xs u all
      by_decoding (ok incomplete) is e more = (
        0,
        [],
        let f : ok (used, before) ≡ ok (u, all) = e in omega (arith, let g : used ≡ u = cc in g),
        let f : before ≡ all = cc in sym f ∙ sym (append-nil before),
        stop xs xs refl is,
      )
      by_decoding (ok (packet n m p)) is e more =
          let (k, ms, sum, whole, s) = more n m p e in
          (
            n + k,
            (m, p) ∷ ms,
            omega arith,
            whole ∙ append_assoc before ((m, p) ∷ []) ms,
            next xs n m p is (rw (drop-drop n k xs) at s),
          )
      by_decoding (throw x) is e more = cc
      by_decoding unfinished is e more = cc

  -- A piece of a stream is a stream, whose rest begins what follows.
  pub Stream-append :
      (xs ys : Bytes) {zs : Bytes} {ms : List (M × Bytes)} {rest : Bytes}
      → Stream zs ms rest
      → zs ≡ xs ++ ys
      → (first : List (M × Bytes)) × (mid : Bytes) × (second : List (M × Bytes)) × Stream xs first
          mid
        × Stream (mid ++ ys) second rest
        × (ms ≡ first ++ second)
  Stream-append xs ys (stop zs rest end e) same =
      let e' : decode metas (xs ++ ys) ≡ ok incomplete = rw same at e in
      (
        [],
        xs,
        [],
        stop xs xs refl (decode-prefix_incomplete metas xs ys e'),
        stop (xs ++ ys) rest (sym same ∙ end) e',
        refl,
      )
  Stream-append xs ys (next {ms} zs n m p e s) same =
      let e' : decode metas (xs ++ ys) ≡ ok (packet n m p) = rw same at e in
      elim (decode-prefix metas xs ys n m p e') [
        | inl none_yet ↦ (
          [],
          xs,
          (m, p) ∷ ms,
          stop xs xs refl none_yet,
          next (xs ++ ys) n m p e' (rw same at s),
          refl,
        )
        | inr there ↦
            let (least, most) = packet_bounds metas xs n m p there in
            let (first, mid, second, s1, s2, whole) =
              Stream-append (drop n xs) ys s (rw same (drop-append_le n xs ys most)) in
            ((m, p) ∷ first, mid, second, next xs n m p there s1, s2, rw whole)
      ]

  pub feed_data-Stream :
      {xs : Bytes} {ms : List (M × Bytes)} {rest : Bytes}
      → Stream xs ms rest
      → (k : ℕ) × (feed_data metas xs ≡ ok (k, ms)) × (drop k xs ≡ rest) × (k ≤ length xs)
  unfolding feed_data
  feed_data-Stream {xs} s =
      let (k, fed, drops, fits) = feed_loop-Stream (suc (length xs)) 0 [] s (omega arith) in
      let sum : 0 + k ≡ k = omega arith in (k, rw sum at fed, drops, fits)

  pub Stream-feed_data :
      (xs : Bytes) (u : ℕ) (all : List (M × Bytes))
      → feed_data metas xs ≡ ok (u, all)
      → Stream xs all (drop u xs)
  unfolding feed_data
  Stream-feed_data xs u all e =
      let (k, ms, sum, same, s) = Stream-feed_loop (suc (length xs)) 0 [] xs u all e in
      let k' : u ≡ k = omega arith in rw (same, k') s

  -- A stream with packets is longer than its rest.
  pub Stream-rest :
      {xs : Bytes} {ms : List (M × Bytes)} {rest : Bytes}
      → Stream xs ms rest
      → (length rest ≤ length xs) × ((ms ≡ []) ⊎ (length rest < length xs))
  Stream-rest (stop xs rest end e) = (rw end (omega arith), inl refl)
  Stream-rest (next xs n m p e s) =
      let (least, most) = packet_bounds metas xs n m p e in
      let left = length-drop n xs in
      let shorter = (Stream-rest s).0 in (omega arith, inr (omega arith))

  -- In the rest no packet is complete.
  pub Stream-stops :
      {xs : Bytes} {ms : List (M × Bytes)} {rest : Bytes}
      → Stream xs ms rest
      → decode metas rest ≡ ok incomplete
  Stream-stops (stop xs rest end e) = rw end at e
  Stream-stops (next xs n m p e s) = Stream-stops s
