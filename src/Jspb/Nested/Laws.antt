-- ===== src/Jspb/Nested/Laws.antt =====
-- What generated code with nested messages, lists and maps relies on.
use pymaid.Prelude.{
  ap, ℕ, ◌<◌, ◌^◌, ◌≡◌, ◌⊎◌, ◌++◌, true, false, List, [], ◌∷◌, Option, some, none, Bytes, length,
  Result, ok, ◌>>=◌, if◌then◌else◌, ◌==◌, All,
}
use pymaid.Js.{Value, Items, nil, cons, arr, undefined}
use pymaid.Jspb.{Jspb}
use pymaid.Jspb.Nested.{Nested}
use pymaid.Jspb.Laws.{Scalar, uint32, packed, block, nums, is_field_number, MessageLaws, WireLaws}

-- `xs.push(x)`
abbrev pub push : Items → Value → Items
push nil x = cons x nil
push (cons y ys) x = cons y (push ys x)

-- What a map holds after entries have been set one after the other.
abbrev pub found {ℓ} : {A : Type ℓ} → (ℕ → Option A) → List (ℕ × A) → ℕ → Option A
found f [] k = f k
found f ((i, a) ∷ rest) k = found (λ n. if i == n then some a else f n) rest k

pub found_cong {ℓ} :
    {A : Type ℓ} (es : List (ℕ × A)) (f g : ℕ → Option A) (k : ℕ)
    → f k ≡ g k
    → found f es k ≡ found g es k
found_cong [] f g k h = h
found_cong ((i, a) ∷ es) f g k h = found_cong es _ _ k (ap (λ x. if i == k then some a else x) h)

-- The two lists have the same length, and their elements are related in turn.
abbrev pub Each {ℓ ℓ'} : {A : Type ℓ} → {B : Type ℓ'} → (A → B → Type 0) → List A → List B → Type 0
Each R [] [] = Unit
Each R [] (b ∷ bs) = ⊥
Each R (a ∷ rest) [] = ⊥
Each R (a ∷ rest) (b ∷ bs) = R a b × Each R rest bs

abbrev pub blocks : ℕ → List Bytes → List (ℕ × Scalar)
blocks n [] = []
blocks n (bytes ∷ rest) = (n, block bytes) ∷ blocks n rest

module _ (j : Jspb) (nested : Nested j) where
  open j use {Message, Writer, Reader, get_result_buffer, new_reader, set_proto3_int_field}
  open nested use {
    Map, initialize_repeated, get_wrapper_field, set_wrapper_field, get_repeated_field,
    add_to_repeated_field, get_map_field, find_map_field, set_map_field, map_length,
    map_serialize_binary, map_deserialize_binary, write_message, write_packed_uint32, is_delimited,
    read_packed_uint32, read_message,
  }

  module _ (laws : MessageLaws j) where
    -- The two messages show the same for field `k`.
    pub record Same (k : ℕ) (m m' : Message) : Type 0 where
      pub stored : laws.stored m' k ≡ laws.stored m k
      pub wrapper : get_wrapper_field m' k ≡ get_wrapper_field m k
      pub repeated : get_repeated_field m' k ≡ get_repeated_field m k
      pub mapped : get_map_field m' k ≡ get_map_field m k

    -- A setter changes its own field alone. `entries` of a map are in the order in which it writes them.
    pub record NestedMessageLaws : Type 0 where
      pub entries : Map → List (ℕ × Message)
      pub find : Map → ℕ → Option Message
      pub map_set : Map → ℕ → Message → Map
      pub initialize-stored :
          (ns : List ℕ) (k : ℕ) → laws.stored (initialize_repeated ns) k ≡ undefined
      pub initialize-wrapper :
          (ns : List ℕ) (k : ℕ) → get_wrapper_field (initialize_repeated ns) k ≡ none
      pub initialize-repeated :
          (n : ℕ) (ns : List ℕ) → get_repeated_field (initialize_repeated (n ∷ ns)) n ≡ arr nil
      pub initialize-map :
          (ns : List ℕ) (k i : ℕ) → find (get_map_field (initialize_repeated ns) k) i ≡ none
      pub set_wrapper_lem :
          (m : Message) (n : ℕ) (w : Option Message)
          → get_wrapper_field (set_wrapper_field m n w) n ≡ w
      pub set_wrapper-Same :
          (m : Message) (n k : ℕ) (w : Option Message)
          → (n == k) ≡ false
          → Same k m (set_wrapper_field m n w)
      pub add_lem :
          (m : Message) (n : ℕ) (v : Value) (xs : Items)
          → get_repeated_field m n ≡ arr xs
          → get_repeated_field (add_to_repeated_field m n v) n ≡ arr (push xs v)
      pub add-Same :
          (m : Message) (n k : ℕ) (v : Value)
          → (n == k) ≡ false
          → Same k m (add_to_repeated_field m n v)
      pub set_map_lem :
          (m : Message) (n : ℕ) (map : Map) → get_map_field (set_map_field m n map) n ≡ map
      pub set_map-Same :
          (m : Message) (n k : ℕ) (map : Map) → (n == k) ≡ false → Same k m (set_map_field m n map)
      pub set_int-Same :
          (m : Message) (n k : ℕ) (v : Value)
          → (n == k) ≡ false
          → Same k m (set_proto3_int_field m n v)
      -- A map that is not there yet is empty.
      pub find_map_lem :
          (m : Message) (n : ℕ)
          → (find_map_field m n ≡ some (get_map_field m n))
            ⊎ ((find_map_field m n ≡ none) × (entries (get_map_field m n) ≡ []))
      pub length_lem : (map : Map) → map_length map ≡ length (entries map)
      pub find-entries : (map : Map) (k : ℕ) → find map k ≡ found (λ i. none) (entries map) k
      pub entries-find : (map : Map) → All (λ e. find map e.0 ≡ some e.1) (entries map)
      pub find-map_set :
          (map : Map) (k i : ℕ) (m : Message)
          → find (map_set map k m) i ≡ (if k == i then some m else find map i)

  module _ (laws : MessageLaws j) (messages : NestedMessageLaws laws) (wire_laws : WireLaws j) where
    open wire_laws use {Wrote, Pending, At}
    open messages use {entries, map_set}

    -- The function writes these fields for the message, whatever was written before.
    abbrev pub Writes : (Message → Writer → Result Writer) → Message → List (ℕ × Scalar) → Type 0
    Writes write m fields =
        (w : Writer) (before : List (ℕ × Scalar))
        → Wrote w before
        → (w' : Writer) × (write m w ≡ ok w') × Wrote w' (before ++ fields)

    abbrev pub Shows : Bytes → List (ℕ × Scalar) → Type 0
    Shows bytes fields = Pending (new_reader bytes) fields

    -- The bytes of a map's entry: a key, and the bytes of a message with these fields.
    abbrev pub ShowsEntry : (Message → List (ℕ × Scalar)) → Bytes → ℕ × Message → Type 0
    ShowsEntry fields_of bytes (k, m) =
        (inner : Bytes) × Shows bytes ((1, uint32 k) ∷ (2, block inner) ∷ [])
        × Shows inner (fields_of m)

    pub record NestedWireLaws : Type 1 where
      pub write_message_lem :
          (write : Message → Writer → Result Writer) (n : ℕ) (m : Message) (w : Writer)
          (fields before : List (ℕ × Scalar))
          → is_field_number n ≡ true
          → Writes write m fields
          → Wrote w before
          → (bytes : Bytes) × (w' : Writer) × (write_message write n m w ≡ ok w')
            × Wrote w' (before ++ (n, block bytes) ∷ [])
            × Shows bytes fields
      pub write_packed_lem :
          (n x : ℕ) (xs : List ℕ) (w : Writer) (before : List (ℕ × Scalar))
          → is_field_number n ≡ true
          → All (λ v. v < 2 ^ 32) (x ∷ xs)
          → Wrote w before
          → (w' : Writer) × (write_packed_uint32 n (arr (nums (x ∷ xs))) w ≡ ok w')
            × Wrote w' (before ++ (n, packed (x ∷ xs)) ∷ [])
      pub map_serialize_lem :
          (write : Message → Writer → Result Writer) (fields_of : Message → List (ℕ × Scalar))
          (n : ℕ) (map : Map) (w : Writer) (before : List (ℕ × Scalar))
          → is_field_number n ≡ true
          → All (λ e. (e.0 < 2 ^ 32) × Writes write e.1 (fields_of e.1)) (entries map)
          → Wrote w before
          → (all_bytes : List Bytes) × (w' : Writer) × (map_serialize_binary write n map w ≡ ok w')
            × Wrote w' (before ++ blocks n all_bytes)
            × Each (ShowsEntry fields_of) all_bytes (entries map)
      pub read_packed_lem :
          (r : Reader) (ns : List ℕ) (rest : List (ℕ × Scalar))
          → At r (packed ns) rest
          → (is_delimited r ≡ true)
            × ((r' : Reader) × (read_packed_uint32 r ≡ ok (nums ns, r')) × Pending r' rest)
      pub read_message_lem :
          (r : Reader) (bytes : Bytes) (rest : List (ℕ × Scalar))
          → At r (block bytes) rest
          → (inner r' : Reader) × ((fields : List (ℕ × Scalar))
              → Shows bytes fields
              → Pending inner fields)
            × ((A : Type 0) (read : A → Reader → Result A) (a : A)
                → read_message read a r ≡ (read a inner >>= λ x. ok (x, r')))
            × Pending r' rest
      pub map_deserialize_lem :
          (read : Message → Reader → Result Message) (k key : ℕ) (value : Message) (map : Map)
          (r : Reader) (bytes : Bytes)
          → Pending r ((1, uint32 k) ∷ (2, block bytes) ∷ [])
          → (inner : Reader) × ((fields : List (ℕ × Scalar))
              → Shows bytes fields
              → Pending inner fields)
            × (map_deserialize_binary read key value map r
                ≡ (read value inner >>= λ m. ok (map_set map k m)))
