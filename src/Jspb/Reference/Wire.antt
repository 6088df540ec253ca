-- ===== src/Jspb/Reference/Wire.antt =====
-- A wire of numbers, with the field's number and kind before each value.
use pymaid.Prelude.{
  Ends, ◌<◌, ℕ, suc, ◌≤◌, ◌≡◌, refl, sym, ap, ◌∙◌, zero, arith, length-append, ◌++◌, Bool, true,
  false, List, [], ◌∷◌, Text, Option, some, none, Bytes, length, Result, ok, throw, type_error,
  if◌then◌else◌, ◌==◌, append-nil, append_assoc,
}
use pymaid.Js.{Value, undefined, null, bool, num, str, arr, obj}
use pymaid.Jspb.Laws.{Scalar, uint32, enum, text, flag, packed, block, value_of, IsText}

abbrev pub Writer : Type 0
Writer = List (ℕ × Scalar)

pub record Reader : Type 0 where
  pub current : Option (ℕ × Scalar)
  pub pending : List (ℕ × Scalar)

-- A text, a list of numbers or bytes: each is written as one more than it is, and a 0 comes after them.
unfoldable pub chars : List ℕ → Bytes
chars [] = 0 ∷ []
chars (c ∷ s) = suc c ∷ chars s

unfoldable pub encode_one : ℕ → Scalar → Bytes
encode_one n (uint32 v) = n ∷ 0 ∷ v ∷ []
encode_one n (enum v) = n ∷ 1 ∷ v ∷ []
encode_one n (flag b) = n ∷ 2 ∷ (if b then 1 else 0) ∷ []
encode_one n (text s) = n ∷ 3 ∷ chars s
encode_one n (packed ns) = n ∷ 4 ∷ chars ns
encode_one n (block bytes) = n ∷ 5 ∷ chars bytes

unfoldable pub encode : List (ℕ × Scalar) → Bytes
encode [] = []
encode ((n, s) ∷ rest) = encode_one n s ++ encode rest

-- What the bytes read so far belong to.
pub data Mode : Type 0 where
  at_start : Mode
  at_kind at_uint32 at_enum at_flag : ℕ → Mode
  at_list : (List ℕ → Scalar) → ℕ → List ℕ → Mode

unfoldable pub after_kind : ℕ → ℕ → Mode
after_kind n zero = at_uint32 n
after_kind n (suc zero) = at_enum n
after_kind n (suc (suc zero)) = at_flag n
after_kind n (suc (suc (suc zero))) = at_list text n []
after_kind n (suc (suc (suc (suc zero)))) = at_list packed n []
after_kind n (suc (suc (suc (suc (suc k))))) = at_list block n []

unfoldable pub decode : Mode → Bytes → List (ℕ × Scalar)
decode mode [] = []
decode at_start (n ∷ rest) = decode (at_kind n) rest
decode (at_kind n) (k ∷ rest) = decode (after_kind n k) rest
decode (at_uint32 n) (v ∷ rest) = (n, uint32 v) ∷ decode at_start rest
decode (at_enum n) (v ∷ rest) = (n, enum v) ∷ decode at_start rest
decode (at_flag n) (v ∷ rest) = (n, flag (v == 1)) ∷ decode at_start rest
decode (at_list make n s) (zero ∷ rest) = (n, make s) ∷ decode at_start rest
decode (at_list make n s) (suc c ∷ rest) = decode (at_list make n (s ++ c ∷ [])) rest

decode-chars :
    (make : List ℕ → Scalar) (n : ℕ) (before s : List ℕ) (rest : Bytes)
    → decode (at_list make n before) (chars s ++ rest)
      ≡ (n, make (before ++ s)) ∷ decode at_start rest
unfolding decode chars
decode-chars make n before [] rest =
    ap (λ u. (n, make u) ∷ decode at_start rest) (sym (append-nil before))
decode-chars make n before (c ∷ s) rest =
    decode-chars make n (before ++ c ∷ []) s rest
    ∙ ap (λ u. (n, make u) ∷ decode at_start rest) (append_assoc before (c ∷ []) s)

decode-encode_one :
    (n : ℕ) (s : Scalar) (rest : Bytes)
    → decode at_start (encode_one n s ++ rest) ≡ (n, s) ∷ decode at_start rest
unfolding decode encode_one after_kind
decode-encode_one n (uint32 v) rest = refl
decode-encode_one n (enum v) rest = refl
decode-encode_one n (flag true) rest = refl
decode-encode_one n (flag false) rest = refl
decode-encode_one n (text s) rest = decode-chars text n [] s rest
decode-encode_one n (packed ns) rest = decode-chars packed n [] ns rest
decode-encode_one n (block bytes) rest = decode-chars block n [] bytes rest

pub decode-encode : (fields : List (ℕ × Scalar)) → decode at_start (encode fields) ≡ fields
unfolding decode encode
decode-encode [] = refl
decode-encode ((n, s) ∷ rest) =
    decode-encode_one n s (encode rest) ∙ ap (λ l. (n, s) ∷ l) (decode-encode rest)

length-encode_one :
    (n : ℕ) (s : Scalar) (rest : Bytes) → suc (length rest) ≤ length (encode_one n s ++ rest)
unfolding encode_one
length-encode_one n (uint32 v) rest = omega arith
length-encode_one n (enum v) rest = omega arith
length-encode_one n (flag b) rest = omega arith
length-encode_one n (text s) rest = rw (length-append (chars s) rest) (omega arith)
length-encode_one n (packed ns) rest = rw (length-append (chars ns) rest) (omega arith)
length-encode_one n (block bytes) rest = rw (length-append (chars bytes) rest) (omega arith)

pub length-encode : (fields : List (ℕ × Scalar)) → length fields ≤ length (encode fields)
unfolding encode
length-encode [] = omega arith
length-encode ((n, s) ∷ rest) =
    let shorter = length-encode rest in
    let longer = length-encode_one n s (encode rest) in omega arith

unfoldable pub write_number : (ℕ → Scalar) → ℕ → Value → Writer → Result Writer
write_number kind n (num v) w = ok (w ++ (n, kind v) ∷ [])
write_number kind n _ w = throw type_error

unfoldable pub write_text : ℕ → Value → Writer → Result Writer
write_text n (str s) w = ok (w ++ (n, text s) ∷ [])
write_text n _ w = throw type_error

unfoldable pub write_flag : ℕ → Value → Writer → Result Writer
write_flag n (bool b) w = ok (w ++ (n, flag b) ∷ [])
write_flag n _ w = throw type_error

unfoldable pub next : List (ℕ × Scalar) → Result (Bool × Reader)
next [] = ok (false, record { current = none; pending = [] })
next (field ∷ rest) = ok (true, record { current = some field; pending = rest })

unfoldable pub number : Option (ℕ × Scalar) → ℕ
number none = 0
number (some (n, s)) = n

unfoldable pub value : Option (ℕ × Scalar) → Value
value none = undefined
value (some (n, s)) = value_of s

unfoldable pub read : Reader → Result (Value × Reader)
read r = ok (value r.current, r)

-- A value of another kind is no text.
abbrev text_only : Value → Reader → Result (Value × Reader)
text_only (str s) r = ok (str s, r)
text_only _ r = throw type_error

unfoldable pub read_text : Reader → Result (Value × Reader)
read_text r = text_only (value r.current) r

abbrev pub At : Reader → Scalar → Writer → Type 0
At r s rest = ((n : ℕ) × (r.current ≡ some (n, s))) × (r.pending ≡ rest)

pub next_lem :
    (r : Reader) (n : ℕ) (s : Scalar) (rest : List (ℕ × Scalar))
    → r.pending ≡ (n, s) ∷ rest
    → (r' : Reader) × (next r.pending ≡ ok (true, r'))
      × (false ≡ false)
      × (number r'.current ≡ n)
      × At r' s rest
unfolding next number
next_lem r n s rest e =
    (record { current = some (n, s); pending = rest }, rw e refl, refl, refl, ((n, refl), refl))

pub read_lem :
    (r : Reader) (s : Scalar) (rest : Writer)
    → At r s rest
    → (r' : Reader) × (read r ≡ ok (value_of s, r')) × (r'.pending ≡ rest)
unfolding read value
read_lem r s rest ((n, e), left) = (r, rw e refl, left)

pub read_text_lem :
    (r : Reader) (s : Text) (rest : Writer)
    → At r (text s) rest
    → (r' : Reader) × (read_text r ≡ ok (str s, r')) × (r'.pending ≡ rest)
unfolding read_text value
read_text_lem r s rest ((n, e), left) = (r, rw e refl, left)

pub length-decode : (mode : Mode) (bytes : Bytes) → length (decode mode bytes) ≤ length bytes
unfolding decode
length-decode mode [] = omega arith
length-decode at_start (b ∷ rest) = omega (arith, length-decode (at_kind b) rest)
length-decode (at_kind n) (b ∷ rest) = omega (arith, length-decode (after_kind n b) rest)
length-decode (at_uint32 n) (b ∷ rest) = omega (arith, length-decode at_start rest)
length-decode (at_enum n) (b ∷ rest) = omega (arith, length-decode at_start rest)
length-decode (at_flag n) (b ∷ rest) = omega (arith, length-decode at_start rest)
length-decode (at_list make n s) (zero ∷ rest) = omega (arith, length-decode at_start rest)
length-decode (at_list make n s) (suc c ∷ rest) =
    omega (arith, length-decode (at_list make n (s ++ c ∷ [])) rest)

pub next_goes :
    (left : List (ℕ × Scalar))
    → Ends (λ p. p.0 ≡ true → length (p.1).pending < length left) (next left)
unfolding next
next_goes [] = λ h. cc
next_goes (field ∷ rest) = λ h. omega arith

pub read_goes : (r : Reader) → Ends (λ p. length (p.1).pending ≤ length r.pending) (read r)
unfolding read
read_goes r = omega arith

text_only-goes :
    (v : Value) (r : Reader)
    → Ends (λ p. IsText p.0 × (length (p.1).pending ≤ length r.pending)) (text_only v r)
text_only-goes undefined r = tt
text_only-goes null r = tt
text_only-goes (bool b) r = tt
text_only-goes (num n) r = tt
text_only-goes (str s) r = ((s, refl), omega arith)
text_only-goes (arr xs) r = tt
text_only-goes (obj o) r = tt

pub read_text_goes :
    (r : Reader) → Ends (λ p. IsText p.0 × (length (p.1).pending ≤ length r.pending)) (read_text r)
unfolding read_text
read_text_goes r = text_only-goes (value r.current) r
