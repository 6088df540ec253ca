-- ===== src/Pb/Pieces.antt =====
-- One field of a message on the wire: it is left out at its default value, and a reader that misses
-- it has the default.
use pymaid.Prelude.{
  ℕ, ◌<◌, ◌^◌, ◌≡◌, refl, ◌++◌, Bool, true, false, not, List, [], ◌∷◌, Text, append-nil, ◌==◌, All,
  if◌then◌else◌, IsWellFormed, Result, ok, Bool-cases, inl, inr,
}
use pymaid.Js.{Value, undefined, null, bool, num, str, arr, obj, is_number, is_truthy}
use pymaid.Jspb.{Jspb}
use pymaid.Jspb.Laws.{Scalar, uint32, enum, text, flag, is_field_number, WireLaws}
use pymaid.Pb.Wire.{write_given, write_if}

abbrev pub wire_uint32 : ℕ → ℕ → List (ℕ × Scalar)
wire_uint32 n v = if v == 0 then [] else (n, uint32 v) ∷ []

abbrev pub wire_enum : ℕ → ℕ → List (ℕ × Scalar)
wire_enum n v = if v == 0 then [] else (n, enum v) ∷ []

abbrev pub wire_text : ℕ → Text → List (ℕ × Scalar)
wire_text n [] = []
wire_text n (c ∷ s) = (n, text (c ∷ s)) ∷ []

abbrev pub wire_flag : ℕ → Bool → List (ℕ × Scalar)
wire_flag n true = (n, flag true) ∷ []
wire_flag n false = []

-- The text that a text field carries when it was set to `v`.
abbrev pub text_of : Value → Text
text_of (str s) = s
text_of _ = []

-- A text with a UTF-8 form, or a number.
abbrev pub IsWritable : Value → Type 0
IsWritable (str s) = IsWellFormed s
IsWritable (num n) = Unit
IsWritable _ = ⊥

-- What holds of the field holds of its piece.
module _ (P : ℕ × Scalar → Type 0) where
  pub All-wire_uint32 : (n v : ℕ) → P (n, uint32 v) → All P (wire_uint32 n v)
  All-wire_uint32 n v p = elim (Bool-cases (v == 0)) [
    | inl zero_value ↦ rw zero_value tt
    | inr value ↦ rw value (p, tt)
  ]

  pub All-wire_enum : (n v : ℕ) → P (n, enum v) → All P (wire_enum n v)
  All-wire_enum n v p = elim (Bool-cases (v == 0)) [
    | inl zero_value ↦ rw zero_value tt
    | inr value ↦ rw value (p, tt)
  ]

  pub All-wire_text : (n : ℕ) (s : Text) → P (n, text s) → All P (wire_text n s)
  All-wire_text n [] p = tt
  All-wire_text n (c ∷ s) p = (p, tt)

  pub All-wire_flag : (n : ℕ) (b : Bool) → P (n, flag b) → All P (wire_flag n b)
  All-wire_flag n true p = (p, tt)
  All-wire_flag n false p = tt

module _ (j : Jspb) (laws : WireLaws j) where
  open j use {Message, Writer, write_uint32, write_enum, write_string, write_bool}
  open laws use {Wrote, write_uint32_lem, write_enum_lem, write_string_lem, write_bool_lem}

  -- `result` is a writer that has written `piece` after the fields `before`.
  abbrev pub Appends : List (ℕ × Scalar) → List (ℕ × Scalar) → Result Writer → Type 0
  Appends before piece result = (w' : Writer) × (result ≡ ok w') × Wrote w' (before ++ piece)

  keep_writer :
      (w : Writer) (before : List (ℕ × Scalar)) → Wrote w before → Appends before [] (ok w)
  keep_writer w before so_far = (w, refl, rw (append-nil before) so_far)

  pub write_uint32_piece :
      (n v : ℕ) (w : Writer) (before : List (ℕ × Scalar))
      → is_field_number n ≡ true
      → v < 2 ^ 32
      → Wrote w before
      → Appends before
          (wire_uint32 n v)
          (write_if j (not (is_number 0 (num v))) (write_uint32 n (num v)) w)
  write_uint32_piece n v w before numbered h so_far = elim (Bool-cases (v == 0)) [
    | inl zero_value ↦ rw zero_value (keep_writer w before so_far)
    | inr value ↦ rw value (write_uint32_lem n v w before numbered h so_far)
  ]

  pub write_enum_piece :
      (n v : ℕ) (w : Writer) (before : List (ℕ × Scalar))
      → is_field_number n ≡ true
      → v < 2 ^ 31
      → Wrote w before
      → Appends before
          (wire_enum n v)
          (write_if j (not (is_number 0 (num v))) (write_enum n (num v)) w)
  write_enum_piece n v w before numbered h so_far = elim (Bool-cases (v == 0)) [
    | inl zero_value ↦ rw zero_value (keep_writer w before so_far)
    | inr value ↦ rw value (write_enum_lem n v w before numbered h so_far)
  ]

  pub write_text_piece :
      (n : ℕ) (s : Text) (w : Writer) (before : List (ℕ × Scalar))
      → is_field_number n ≡ true
      → IsWellFormed s
      → Wrote w before
      → Appends before (wire_text n s) (write_given j n (str s) w)
  write_text_piece n [] w before numbered h so_far = keep_writer w before so_far
  write_text_piece n (c ∷ s) w before numbered h so_far =
      write_string_lem n (c ∷ s) w before numbered h so_far

  -- A text field that was set to a number is left out: a number has no length.
  pub write_value_piece :
      (n : ℕ) (v : Value) (w : Writer) (before : List (ℕ × Scalar))
      → is_field_number n ≡ true
      → IsWritable v
      → Wrote w before
      → Appends before (wire_text n (text_of v)) (write_given j n v w)
  write_value_piece n (str s) w before numbered h so_far =
      write_text_piece n s w before numbered h so_far
  write_value_piece n (num v) w before numbered h so_far = keep_writer w before so_far
  write_value_piece n undefined w before numbered h so_far = elim h [ ]
  write_value_piece n null w before numbered h so_far = elim h [ ]
  write_value_piece n (bool b) w before numbered h so_far = elim h [ ]
  write_value_piece n (arr xs) w before numbered h so_far = elim h [ ]
  write_value_piece n (obj o) w before numbered h so_far = elim h [ ]

  pub write_flag_piece :
      (n : ℕ) (b : Bool) (w : Writer) (before : List (ℕ × Scalar))
      → is_field_number n ≡ true
      → Wrote w before
      → Appends before (wire_flag n b) (write_if j (is_truthy (bool b)) (write_bool n (bool b)) w)
  write_flag_piece n true w before numbered so_far = write_bool_lem n true w before numbered so_far
  write_flag_piece n false w before numbered so_far = keep_writer w before so_far
