-- ===== src/Jspb/Nested/Reference.antt =====
-- The instance of Jspb.Reference extends to messages with messages, lists and maps.
pub mod Maps
pub mod Operations
use pymaid.Prelude.{
  ℕ, ◌<◌, ◌^◌, ◌≡◌, refl, sym, ap, ◌∙◌, ◌++◌, true, false, List, [], ◌∷◌, Option, some, none, Bytes,
  length, Result, ok, throw, type_error, ◌>>=◌, if◌then◌else◌, ◌==◌, All, arith, inl, inr,
  Bool-cases, All-append, All-implies, append-nil, append_assoc,
}
use pymaid.Js.{Value, Items, nil, cons, arr, num, is_present, pair}
use pymaid.Jspb.Laws.{Scalar, uint32, packed, block, nums}
use pymaid.Jspb.Reference.{reference, reference_messages, reference_wire}
use pymaid.Jspb.Reference.Wire.{
  Reader, Writer, encode, decode, at_start, decode-encode, read, value,
}
use pymaid.Jspb.Reference.Messages.{
  Tree, bare, with_value, with_wrapper, without_wrapper, with_map, Leaves, bud, leaf, stored,
  wrapper, leaves,
}
use pymaid.Jspb.Nested.Reference.Maps.{entries, find, find-entries, entries-find}
use pymaid.Jspb.Nested.{Nested}
use pymaid.Jspb.Nested.Laws.{
  push, found, found_cong, Each, blocks, Same, NestedMessageLaws, NestedWireLaws, Writes,
  ShowsEntry,
}
use pymaid.Jspb.Nested.Reference.Operations.{
  put_wrapper, items_of, repeated, to_items, from_pair, from_items, numbers, write_packed,
  write_block, entry_bytes, write_entries, reader_of, read_block, read_entry, nested_reference,
}

pub put_wrapper_lem : (m : Tree) (n : ℕ) (w : Option Tree) → wrapper (put_wrapper m n w) n ≡ w
put_wrapper_lem m n none = ground arith
put_wrapper_lem m n (some w) = ground arith

pub put_wrapper-Same :
    (m : Tree) (n k : ℕ) (w : Option Tree)
    → (n == k) ≡ false
    → Same reference nested_reference reference_messages k m (put_wrapper m n w)
put_wrapper-Same m n k none h = record {
  stored = refl;
  wrapper = rw h refl;
  repeated = refl;
  mapped = refl;
}
put_wrapper-Same m n k (some w) h = record {
  stored = refl;
  wrapper = rw h refl;
  repeated = refl;
  mapped = refl;
}

pub with_value-Same :
    (m : Tree) (n k : ℕ) (v : Value)
    → (n == k) ≡ false
    → Same reference nested_reference reference_messages k m (with_value n v m)
with_value-Same m n k v h = record {
  stored = rw h refl;
  wrapper = refl;
  repeated = rw h refl;
  mapped = refl;
}

pub add_lem :
    (m : Tree) (n : ℕ) (v : Value) (xs : Items)
    → repeated m n ≡ arr xs
    → repeated (with_value n (arr (push (items_of (stored m n)) v)) m) n ≡ arr (push xs v)
add_lem m n v xs h = let same : items_of (stored m n) ≡ xs = ap items_of h in rw same (ground arith)

pub with_map_lem : (m : Tree) (n : ℕ) (map : Leaves) → leaves (with_map n map m) n ≡ map
with_map_lem m n map = ground arith

unfoldable pub nested_reference_messages :
    NestedMessageLaws reference nested_reference reference_messages
nested_reference_messages = record {
  entries = entries;
  find = find;
  map_set = λ map k m. leaf k m map;
  initialize-stored = λ ns k. refl;
  initialize-wrapper = λ ns k. refl;
  initialize-repeated = λ n ns. refl;
  initialize-map = λ ns k i. refl;
  set_wrapper_lem = put_wrapper_lem;
  set_wrapper-Same = put_wrapper-Same;
  add_lem = add_lem;
  add-Same = λ m n k v h. with_value-Same m n k _ h;
  set_map_lem = with_map_lem;
  set_map-Same =
      λ m n k map h. record { stored = refl; wrapper = refl; repeated = refl; mapped = rw h refl };
  set_int-Same = λ m n k v h. with_value-Same m n k _ h;
  find_map_lem = λ m n. inl refl;
  length_lem = λ map. refl;
  find-entries = find-entries;
  entries-find = entries-find;
  find-map_set = λ map k i m. refl;
}

numbers-nums : (ns : List ℕ) → numbers (nums ns) ≡ ok ns
numbers-nums [] = refl
numbers-nums (n ∷ ns) = rw (numbers-nums ns) refl

module _ (write : Tree → Writer → Result Writer) (fields_of : Tree → List (ℕ × Scalar))
    (n : ℕ) where
  map_serialize_lem :
      (es : List (ℕ × Tree)) (w : Writer) (before : List (ℕ × Scalar))
      → All
          (λ e.
            (e.0 < 2 ^ 32)
            × Writes reference nested_reference reference_messages nested_reference_messages
                reference_wire write e.1
                (fields_of e.1))
          es
      → w ≡ before
      → (all_bytes : List Bytes) × (w' : Writer) × (write_entries write n es w ≡ ok w')
        × (w' ≡ before ++ blocks n all_bytes)
        × Each
            (ShowsEntry reference nested_reference reference_messages nested_reference_messages
              reference_wire fields_of)
            all_bytes
            es
  unfolding reference_wire nested_reference_messages
  map_serialize_lem [] w before h same = ([], w, refl, rw (append-nil before) same, tt)
  map_serialize_lem ((k, m) ∷ es) w before h same =
      let (inner, written, wrote) = h.0.1 [] [] refl in
      let bytes = entry_bytes k inner in
      let (rest, w', e, a, shown) =
        map_serialize_lem es (w ++ (n, block bytes) ∷ []) (before ++ (n, block bytes) ∷ []) h.1
          (rw same) in
      (
        bytes ∷ rest,
        w',
        rw written e,
        a ∙ append_assoc before ((n, block bytes) ∷ []) (blocks n rest),
        ((encode inner, decode-encode _, decode-encode inner ∙ wrote), shown),
      )

pub nested_reference_wire :
    NestedWireLaws reference nested_reference reference_messages nested_reference_messages
      reference_wire
unfolding reference_wire nested_reference_messages value
nested_reference_wire = record {
  write_message_lem = λ write n m w fields before numbered writes same.
      let (inner, written, wrote) = writes [] [] refl in
      (
        encode inner,
        w ++ (n, block (encode inner)) ∷ [],
        rw written refl,
        rw same,
        decode-encode inner ∙ wrote,
      );
  write_packed_lem = λ n x xs w before numbered fits same.
      (w ++ (n, packed (x ∷ xs)) ∷ [], rw (numbers-nums xs) refl, rw same);
  map_serialize_lem = λ write fields_of n map w before numbered h same.
      map_serialize_lem write fields_of n (entries map) w before h same;
  read_packed_lem = λ r ns rest at.
      let ((n, e), left) = at in (rw e refl, (r, ap (λ c. ok (items_of (value c), r)) e, left));
  read_message_lem = λ r bytes rest at.
      let ((n, e), left) = at in
      (reader_of r.current, r, rw e (λ fields shows. shows), λ A read a. refl, left);
  map_deserialize_lem = λ read k key value map r bytes h. (
    record { current = none; pending = decode at_start bytes },
    λ fields shows. shows,
    rw h refl,
  );
}
