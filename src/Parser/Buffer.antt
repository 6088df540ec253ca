-- ===== src/Parser/Buffer.antt =====
-- The accesses of DataView, Uint8Array and ArrayBuffer that the parser makes.
use native.Mathlib.Nat.{zero-add, suc-add, add-sub_cancel_left}
use pymaid.Prelude.{
  ℕ, zero, suc, ◌+◌, ◌-◌, ◌*◌, ◌/◌, ◌%◌, ◌++◌, ◌≡◌, [], ◌∷◌, Bytes, length, take, drop, get_elem?,
  Option, none, some, List, replicate, take-append, ◌∙◌, append_assoc, append-nil, length-append,
  drop-append,
}

-- `buffer` with `source` from `offset` on.
unfoldable pub set_bytes : ℕ → Bytes → Bytes → Bytes
set_bytes offset source buffer =
    take offset buffer ++ (source ++ drop (offset + length source) buffer)

-- `dv.setUint16(offset, v)`: the low 16 bits, the more significant byte first.
unfoldable pub set_uint16 : ℕ → ℕ → Bytes → Bytes
unfolding set_bytes
set_uint16 offset v = set_bytes offset (v / 256 % 256 ∷ v % 256 ∷ [])

abbrev pub byte : Option ℕ → ℕ
byte none = 0
byte (some b) = b

-- `dv.getUint16(offset)` within the buffer.
unfoldable pub get_uint16 : ℕ → Bytes → ℕ
get_uint16 offset buffer =
    byte (get_elem? buffer offset) * 256 + byte (get_elem? buffer (offset + 1))

-- `ab.slice(first, limit)`: both are cut to the end of the buffer.
unfoldable pub slice : ℕ → ℕ → Bytes → Bytes
slice first limit buffer = take (limit - first) (drop first buffer)

module _ {ℓ} {A : Type ℓ} where
  drop_behind : (xs ys : List A) (n : ℕ) → drop (length xs + n) (xs ++ ys) ≡ drop n ys
  drop_behind [] ys n = rw (zero-add n)
  drop_behind (x ∷ xs) ys n = rw (suc-add (length xs) n) (drop_behind xs ys n)

drop-replicate : (n m : ℕ) → drop {A = ℕ} n (replicate (n + m) 0) ≡ replicate m 0
drop-replicate zero m = rw (zero-add m)
drop-replicate (suc n) m = rw (suc-add n m) (drop-replicate n m)

-- A write at the first of the zeros behind `done` fills as many of them as it has bytes.
pub set_bytes-fill :
    (done source : Bytes) (m : ℕ)
    → set_bytes (length done) source (done ++ replicate (length source + m) 0)
      ≡ done ++ (source ++ replicate m 0)
unfolding set_bytes
set_bytes-fill done source m = rw (
  take-append done (replicate (length source + m) 0),
  drop_behind done (replicate (length source + m) 0) (length source),
  drop-replicate (length source) m,
)

-- The last write, behind two parts.
pub set_bytes-last :
    (done more source : Bytes) (offset : ℕ)
    → offset ≡ length done + length more
    → set_bytes offset source (done ++ (more ++ replicate (length source + 0) 0))
      ≡ done ++ (more ++ source)
set_bytes-last done more source offset p =
    rw (p, ← length-append done more, ← append_assoc done more (replicate (length source + 0) 0))
      (set_bytes-fill (done ++ more) source 0
        ∙ rw (append-nil source) (append_assoc done more source))

pub set_uint16-fill :
    (done : Bytes) (v m : ℕ)
    → set_uint16 (length done) v (done ++ replicate (2 + m) 0)
      ≡ done ++ (v / 256 % 256 ∷ v % 256 ∷ replicate m 0)
unfolding set_uint16
set_uint16-fill done v m = set_bytes-fill done (v / 256 % 256 ∷ v % 256 ∷ []) m

-- A slice from the end of `done` on, of `n` bytes if there are as many.
pub slice_behind :
    (done ys : Bytes) (first n : ℕ)
    → first ≡ length done
    → slice first (first + n) (done ++ ys) ≡ take n ys
unfolding slice
slice_behind done ys first n p = rw (p, drop-append done ys, add-sub_cancel_left (length done) n)
