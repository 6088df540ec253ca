-- ===== src/Jspb/Nested/Reference/Operations.antt =====
-- Messages within messages, lists and maps, over the wire of Jspb.Reference.
use pymaid.Prelude.{
  ℕ, ◌++◌, true, false, List, [], ◌∷◌, Option, some, none, Bytes, length, Result, ok, throw,
  type_error, ◌>>=◌,
}
use pymaid.Js.{Value, Items, nil, cons, arr, num, is_present, pair}
use pymaid.Jspb.Laws.{Scalar, uint32, packed, block}
use pymaid.Jspb.Reference.{reference}
use pymaid.Jspb.Reference.Wire.{Reader, Writer, encode, decode, at_start, read, value}
use pymaid.Jspb.Reference.Messages.{
  Tree, bare, with_value, with_wrapper, without_wrapper, with_map, Leaves, bud, leaf, stored,
  wrapper, leaves,
}
use pymaid.Jspb.Nested.Reference.Maps.{entries}
use pymaid.Jspb.Nested.{Nested}
use pymaid.Jspb.Nested.Laws.{push}

abbrev pub put_wrapper : Tree → ℕ → Option Tree → Tree
put_wrapper m n none = without_wrapper n m
put_wrapper m n (some w) = with_wrapper n w m

abbrev pub items_of : Value → Items
items_of (arr xs) = xs
items_of _ = nil

abbrev pub repeated : Tree → ℕ → Value
repeated m n = arr (items_of (stored m n))

abbrev pub to_items : (Tree → Value) → List (ℕ × Tree) → Items
to_items f [] = nil
to_items f ((k, m) ∷ rest) = cons (pair (num k) (f m)) (to_items f rest)

-- One entry, a pair of a key and a plain value.
abbrev pub from_pair : (Value → Result Tree) → Value → Result Leaves → Result Leaves
from_pair f (arr (cons (num k) (cons v nil))) rest = f v >>= λ m. rest >>= λ l. ok (leaf k m l)
from_pair f _ rest = throw type_error

abbrev pub from_items : (Value → Result Tree) → Items → Result Leaves
from_items f nil = ok bud
from_items f (cons x xs) = from_pair f x (from_items f xs)

abbrev pub numbers : Items → Result (List ℕ)
numbers nil = ok []
numbers (cons (num n) xs) = numbers xs >>= λ ns. ok (n ∷ ns)
numbers (cons _ xs) = throw type_error

abbrev pub write_packed : ℕ → Value → Writer → Result Writer
write_packed n (arr nil) w = ok w
write_packed n (arr (cons x xs)) w = numbers (cons x xs) >>= λ ns. ok (w ++ (n, packed ns) ∷ [])
write_packed n _ w = throw type_error

abbrev pub write_block : (Tree → Writer → Result Writer) → ℕ → Tree → Writer → Result Writer
write_block write n m w = write m [] >>= λ inner. ok (w ++ (n, block (encode inner)) ∷ [])

abbrev pub entry_bytes : ℕ → Writer → Bytes
entry_bytes k inner = encode ((1, uint32 k) ∷ (2, block (encode inner)) ∷ [])

abbrev pub write_entries :
    (Tree → Writer → Result Writer) → ℕ → List (ℕ × Tree) → Writer → Result Writer
write_entries write n [] w = ok w
write_entries write n ((k, m) ∷ rest) w =
    write m [] >>= λ inner. write_entries write n rest (w ++ (n, block (entry_bytes k inner)) ∷ [])

abbrev pub reader_of : Option (ℕ × Scalar) → Reader
reader_of (some (n, block bytes)) = record { current = none; pending = decode at_start bytes }
reader_of _ = record { current = none; pending = [] }

abbrev pub read_block : {A : Type 0} → (A → Reader → Result A) → A → Reader → Result (A × Reader)
read_block read a r = read a (reader_of r.current) >>= λ x. ok (x, r)

-- An entry is its key and its message, in this order.
abbrev pub read_entry :
    (Tree → Reader → Result Tree) → Tree → Leaves → List (ℕ × Scalar) → Result Leaves
read_entry read value map ((n, uint32 k) ∷ (i, block bytes) ∷ rest) =
    read value (record { current = none; pending = decode at_start bytes }) >>= λ m.
    ok (leaf k m map)
read_entry read value map _ = throw type_error

abbrev pub nested_reference : Nested reference
nested_reference = record {
  Map = Leaves;
  initialize_repeated = λ ns. bare;
  has_field = λ m n. is_present (stored m n);
  get_wrapper_field = wrapper;
  set_wrapper_field = put_wrapper;
  get_repeated_field = repeated;
  add_to_repeated_field = λ m n v. with_value n (arr (push (items_of (stored m n)) v)) m;
  get_map_field = leaves;
  find_map_field = λ m n. some (leaves m n);
  set_map_field = λ m n map. with_map n map m;
  map_length = λ map. length (entries map);
  map_clear = λ map. bud;
  map_to_object = λ f map. arr (to_items f (entries map));
  map_from_object = λ f v. from_items f (items_of v);
  map_serialize_binary = λ write n map w. write_entries write n (entries map) w;
  map_deserialize_binary = λ read k value map r. read_entry read value map r.pending;
  write_message = write_block;
  write_packed_uint32 = write_packed;
  is_delimited =
      λ r. elim r.current [ none ↦ false | some (n, s) ↦ elim s [ packed ns ↦ true | _ ↦ false ] ];
  read_packed_uint32 = λ r. ok (items_of (value r.current), r);
  read_message = read_block;
}
