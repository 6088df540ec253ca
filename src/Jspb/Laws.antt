-- ===== src/Jspb/Laws.antt =====
-- What the generated code relies on.
use pymaid.Prelude.{
  Ends, Bytes, ltb, ◌&&◌, ℕ, ◌<◌, ◌≤◌, ◌^◌, ◌≡◌, ◌++◌, Bool, true, false, List, [], ◌∷◌, Text,
  length, IsWellFormed, ok, if◌then◌else◌, ◌==◌, eq_text,
}
use pymaid.Js.{Items, nil, cons, arr, Value, undefined, null, bool, num, str, is_present, is_truthy}
use pymaid.Jspb.{Jspb}

-- The value of a field on the wire, as it was written. A message is its bytes.
pub data Scalar : Type 0 where
  uint32 enum : ℕ → Scalar
  text : Text → Scalar
  flag : Bool → Scalar
  packed : List ℕ → Scalar
  block : Bytes → Scalar

abbrev pub nums : List ℕ → Items
nums [] = nil
nums (n ∷ ns) = cons (num n) (nums ns)

abbrev pub value_of : Scalar → Value
value_of (uint32 n) = num n
value_of (enum n) = num n
value_of (text s) = str s
value_of (flag b) = bool b
value_of (packed ns) = arr (nums ns)
value_of (block bytes) = undefined

-- The field numbers of protobuf.
abbrev pub is_field_number : ℕ → Bool
is_field_number n = ltb 0 n && ltb n (2 ^ 29)

-- `v === d ? null : v`, for a default value `d`.
abbrev pub unless_zero : Value → Value
unless_zero (num n) = if n == 0 then null else num n
unless_zero v = v

abbrev pub unless_empty : Value → Value
unless_empty (str s) = if eq_text s [] then null else str s
unless_empty v = v

abbrev pub unless_false : Value → Value
unless_false (bool b) = if b then bool true else null
unless_false v = v

abbrev pub IsText : Value → Type 0
IsText v = (s : Text) × (v ≡ str s)

module _ (j : Jspb) where
  open j use {
    Message, Writer, Reader, initialize, get_field_with_default, get_boolean_field_with_default,
    set_field, set_proto3_int_field, set_proto3_enum_field, set_proto3_string_field,
    set_proto3_boolean_field, new_writer, write_uint32, write_enum, write_string, write_bool,
    get_result_buffer, new_reader, next_field, is_end_group, get_field_number, read_uint32,
    read_enum, read_string, read_bool, skip_field,
  }

  -- The fields of a message are cells, set one by one.
  pub record MessageLaws : Type 0 where
    pub stored : Message → ℕ → Value
    pub stored-initialize : (k : ℕ) → stored initialize k ≡ undefined
    pub get_field_lem :
        (m : Message) (n : ℕ) (d : Value)
        → get_field_with_default m n d ≡ (if is_present (stored m n) then stored m n else d)
    pub get_boolean_lem :
        (m : Message) (n : ℕ) (d : Value)
        → get_boolean_field_with_default m n d
          ≡ (if is_present (stored m n) then bool (is_truthy (stored m n)) else d)
    pub set_field_lem :
        (m : Message) (n k : ℕ) (v : Value)
        → stored (set_field m n v) k ≡ (if n == k then v else stored m k)
    pub set_int_lem :
        (m : Message) (n k : ℕ) (v : Value)
        → stored (set_proto3_int_field m n v) k ≡ (if n == k then unless_zero v else stored m k)
    pub set_enum_lem :
        (m : Message) (n k : ℕ) (v : Value)
        → stored (set_proto3_enum_field m n v) k ≡ (if n == k then unless_zero v else stored m k)
    pub set_string_lem :
        (m : Message) (n k : ℕ) (v : Value)
        → stored (set_proto3_string_field m n v) k ≡ (if n == k then unless_empty v else stored m k)
    pub set_boolean_lem :
        (m : Message) (n k : ℕ) (v : Value)
        → stored (set_proto3_boolean_field m n v) k
          ≡ (if n == k then unless_false v else stored m k)

  -- What has been written, and what is left to read, as fields in their order. They are relations, for
  -- the wire does not tell a number from a flag: the same bytes show fields of several kinds. `At r s
  -- rest` is a reader at the value `s`, with the fields `rest` behind it.
  pub record WireLaws : Type 1 where
    pub Wrote : Writer → List (ℕ × Scalar) → Type 0
    pub Pending : Reader → List (ℕ × Scalar) → Type 0
    pub At : Reader → Scalar → List (ℕ × Scalar) → Type 0
    pub Wrote-new : Wrote new_writer []
    pub write_uint32_lem :
        (n v : ℕ) (w : Writer) (fields : List (ℕ × Scalar))
        → is_field_number n ≡ true
        → v < 2 ^ 32
        → Wrote w fields
        → (w' : Writer) × (write_uint32 n (num v) w ≡ ok w')
          × Wrote w' (fields ++ (n, uint32 v) ∷ [])
    pub write_enum_lem :
        (n v : ℕ) (w : Writer) (fields : List (ℕ × Scalar))
        → is_field_number n ≡ true
        → v < 2 ^ 31
        → Wrote w fields
        → (w' : Writer) × (write_enum n (num v) w ≡ ok w') × Wrote w' (fields ++ (n, enum v) ∷ [])
    pub write_string_lem :
        (n : ℕ) (s : Text) (w : Writer) (fields : List (ℕ × Scalar))
        → is_field_number n ≡ true
        → IsWellFormed s
        → Wrote w fields
        → (w' : Writer) × (write_string n (str s) w ≡ ok w') × Wrote w' (fields ++ (n, text s) ∷ [])
    pub write_bool_lem :
        (n : ℕ) (b : Bool) (w : Writer) (fields : List (ℕ × Scalar))
        → is_field_number n ≡ true
        → Wrote w fields
        → (w' : Writer) × (write_bool n (bool b) w ≡ ok w') × Wrote w' (fields ++ (n, flag b) ∷ [])
    pub Wrote-le :
        (w : Writer) (fields : List (ℕ × Scalar))
        → Wrote w fields
        → length fields ≤ length (get_result_buffer w)
    pub Pending-new :
        (w : Writer) (fields : List (ℕ × Scalar))
        → Wrote w fields
        → Pending (new_reader (get_result_buffer w)) fields
    pub next_end : (r : Reader) → Pending r [] → (r' : Reader) × (next_field r ≡ ok (false, r'))
    pub next_more :
        (r : Reader) (n : ℕ) (s : Scalar) (rest : List (ℕ × Scalar))
        → Pending r ((n, s) ∷ rest)
        → (r' : Reader) × (next_field r ≡ ok (true, r'))
          × (is_end_group r' ≡ false)
          × (get_field_number r' ≡ n)
          × At r' s rest
    pub read_uint32_lem :
        (r : Reader) (v : ℕ) (rest : List (ℕ × Scalar))
        → At r (uint32 v) rest
        → (r' : Reader) × (read_uint32 r ≡ ok (num v, r')) × Pending r' rest
    pub read_enum_lem :
        (r : Reader) (v : ℕ) (rest : List (ℕ × Scalar))
        → At r (enum v) rest
        → (r' : Reader) × (read_enum r ≡ ok (num v, r')) × Pending r' rest
    pub read_string_lem :
        (r : Reader) (s : Text) (rest : List (ℕ × Scalar))
        → At r (text s) rest
        → (r' : Reader) × (read_string r ≡ ok (str s, r')) × Pending r' rest
    pub read_bool_lem :
        (r : Reader) (b : Bool) (rest : List (ℕ × Scalar))
        → At r (flag b) rest
        → (r' : Reader) × (read_bool r ≡ ok (bool b, r')) × Pending r' rest

  -- A reader has so many bytes left: the next field takes at least one of them, and its value takes none
  -- back. Each read returns or throws, and a text is read as a string.
  pub record ReaderLaws : Type 0 where
    pub remaining : Reader → ℕ
    pub remaining-new : (bytes : Bytes) → remaining (new_reader bytes) ≤ length bytes
    pub next_field_ends :
        (r : Reader) → Ends (λ next. next.0 ≡ true → remaining next.1 < remaining r) (next_field r)
    pub read_uint32_ends : (r : Reader) → Ends (λ p. remaining p.1 ≤ remaining r) (read_uint32 r)
    pub read_enum_ends : (r : Reader) → Ends (λ p. remaining p.1 ≤ remaining r) (read_enum r)
    pub read_string_ends : (r : Reader) → Ends (λ p. remaining p.1 ≤ remaining r) (read_string r)
    pub read_string_text : (r : Reader) → Ends (λ p. IsText p.0) (read_string r)
    pub read_bool_ends : (r : Reader) → Ends (λ p. remaining p.1 ≤ remaining r) (read_bool r)
    pub skip_field_ends : (r : Reader) → Ends (λ r'. remaining r' ≤ remaining r) (skip_field r)
