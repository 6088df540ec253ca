-- ===== src/Jspb/Reference.antt =====
-- An instance of the runtime that has the laws it is taken to have.
pub mod Wire
pub mod Messages
use pymaid.Prelude.{
  Ends, Ends-weaken, ◌<◌, ℕ, suc, ◌≤◌, ◌≡◌, refl, sym, ap, ◌∙◌, zero, arith, length-append, ◌++◌,
  Bool, true, false, List, [], ◌∷◌, Option, some, none, Text, Bytes, length, Result, ok, throw,
  type_error, if◌then◌else◌, ◌==◌, append-nil, append_assoc,
}
use pymaid.Js.{Value, undefined, bool, num, str, is_present, is_truthy}
use pymaid.Jspb.{Jspb}
use pymaid.Jspb.Reference.Wire.{
  Writer, Reader, encode, decode, at_start, write_number, write_text, write_flag, next, number,
  read, At, next_lem, read_lem, length-encode, decode-encode, length-decode, next_goes, read_goes,
  read_text, read_text_lem, read_text_goes,
}
use pymaid.Jspb.Reference.Messages.{Tree, bare, with_value, stored}
use pymaid.Jspb.Laws.{
  Scalar, uint32, enum, text, flag, value_of, unless_zero, unless_empty, unless_false, MessageLaws,
  WireLaws, ReaderLaws,
}

abbrev default_to : Tree → ℕ → Value → Value
default_to m n d = if is_present (stored m n) then stored m n else d

abbrev put_value : Tree → ℕ → Value → Tree
put_value m n v = with_value n v m

abbrev pub reference : Jspb
reference = record {
  Message = Tree;
  Writer = Writer;
  Reader = Reader;
  initialize = bare;
  get_field_with_default = default_to;
  get_boolean_field_with_default =
      λ m n d. if is_present (stored m n) then bool (is_truthy (stored m n)) else d;
  set_field = put_value;
  set_proto3_int_field = λ m n v. put_value m n (unless_zero v);
  set_proto3_enum_field = λ m n v. put_value m n (unless_zero v);
  set_proto3_string_field = λ m n v. put_value m n (unless_empty v);
  set_proto3_boolean_field = λ m n v. put_value m n (unless_false v);
  new_writer = [];
  write_uint32 = write_number uint32;
  write_enum = write_number enum;
  write_string = write_text;
  write_bool = write_flag;
  get_result_buffer = encode;
  new_reader = λ bytes. record { current = none; pending = decode at_start bytes };
  next_field = λ r. next r.pending;
  is_end_group = λ r. false;
  get_field_number = λ r. number r.current;
  read_uint32 = read;
  read_enum = read;
  read_string = read_text;
  read_bool = read;
  skip_field = λ r. ok r;
}

abbrev pub reference_messages : MessageLaws reference
reference_messages = record {
  stored = stored;
  stored-initialize = λ k. refl;
  get_field_lem = λ m n d. refl;
  get_boolean_lem = λ m n d. refl;
  set_field_lem = λ m n k v. refl;
  set_int_lem = λ m n k v. refl;
  set_enum_lem = λ m n k v. refl;
  set_string_lem = λ m n k v. refl;
  set_boolean_lem = λ m n k v. refl;
}

unfoldable pub reference_wire : WireLaws reference
unfolding write_number write_text write_flag next
reference_wire = record {
  Wrote = λ w fields. w ≡ fields;
  Pending = λ r fields. r.pending ≡ fields;
  At = At;
  Wrote-new = refl;
  write_uint32_lem = λ n v w fields _ _ same. (_, refl, rw same);
  write_enum_lem = λ n v w fields _ _ same. (_, refl, rw same);
  write_string_lem = λ n s w fields _ _ same. (_, refl, rw same);
  write_bool_lem = λ n b w fields _ same. (_, refl, rw same);
  Wrote-le = λ w fields same. rw (← same) (length-encode w);
  Pending-new = λ w fields same. decode-encode w ∙ same;
  next_end = λ r e. (record { current = none; pending = [] }, rw e refl);
  next_more = next_lem;
  read_uint32_lem = λ r v rest at. read_lem r (uint32 v) rest at;
  read_enum_lem = λ r v rest at. read_lem r (enum v) rest at;
  read_string_lem = λ r s rest at. read_text_lem r s rest at;
  read_bool_lem = λ r b rest at. read_lem r (flag b) rest at;
}

pub reference_reader : ReaderLaws reference
reference_reader = record {
  remaining = λ r. length r.pending;
  remaining-new = length-decode at_start;
  next_field_ends = λ r. next_goes r.pending;
  read_uint32_ends = read_goes;
  read_enum_ends = read_goes;
  read_string_ends = λ r. Ends-weaken _ _ (read_text r) (λ p h. h.1) (read_text_goes r);
  read_string_text = λ r. Ends-weaken _ _ (read_text r) (λ p h. h.0) (read_text_goes r);
  read_bool_ends = read_goes;
  skip_field_ends = λ r. omega arith;
}
