-- ===== src/Server/Exchange/Reference.antt =====
-- A class of Contexts that has the format of Jspb.Reference.
use pymaid.Prelude.{
  ℕ, ◌≡◌, refl, ap, ◌∙◌, ◌++◌, Bool, true, false, List, [], ◌∷◌, Option, none, some, Text, length,
  ok, ◌==◌, if◌then◌else◌, arith,
}
use pymaid.Jspb.Laws.{Scalar, uint32, enum, text, flag}
use pymaid.Jspb.Reference.{reference, reference_wire}
use pymaid.Jspb.Reference.Wire.{encode, decode, at_start, decode-encode, length-encode}
use pymaid.Pb.Pieces.{wire_uint32, wire_enum, wire_text, wire_flag}
use pymaid.Pb.Context.Contents.{Contents, wire}
use pymaid.Server.Protocol.{MessageClass}
use pymaid.Server.Exchange.{WireFormat}

abbrev Fields : Type 0
Fields = List (ℕ × Scalar)

-- The first field of a number.
unfoldable pub at : ℕ → Fields → Option Scalar
at n [] = none
at n ((k, s) ∷ rest) = if k == n then some s else at n rest

abbrev pub number : Option Scalar → ℕ
number (some (uint32 v)) = v
number (some (enum v)) = v
number _ = 0

abbrev pub chars : Option Scalar → Text
chars (some (text s)) = s
chars _ = []

abbrev pub truth : Option Scalar → Bool
truth (some (flag b)) = b
truth _ = false

unfoldable pub contents_of : Fields → Contents
unfolding at
contents_of fields = record {
  transmission_id = number (at 1 fields);
  packet_type = number (at 2 fields);
  packet_flags = number (at 3 fields);
  priority = number (at 4 fields);
  service_method = chars (at 5 fields);
  is_cancelled = truth (at 6 fields);
  is_failed = truth (at 7 fields);
}

at-wire_uint32 :
    (n k v : ℕ) (rest : Fields)
    → at n (wire_uint32 k v ++ rest)
      ≡ (if k == n then (if v == 0 then at n rest else some (uint32 v)) else at n rest)
unfolding at
at-wire_uint32 n k v rest = ground arith

at-wire_enum :
    (n k v : ℕ) (rest : Fields)
    → at n (wire_enum k v ++ rest)
      ≡ (if k == n then (if v == 0 then at n rest else some (enum v)) else at n rest)
unfolding at
at-wire_enum n k v rest = ground arith

abbrev if_text : Text → Option Scalar → Option Scalar
if_text [] o = o
if_text (c ∷ s) o = some (text (c ∷ s))

at-wire_text :
    (n k : ℕ) (s : Text) (rest : Fields)
    → at n (wire_text k s ++ rest) ≡ (if k == n then if_text s (at n rest) else at n rest)
unfolding at
at-wire_text n k [] rest = ground arith
at-wire_text n k (c ∷ s) rest = refl

at-wire_flag :
    (n k : ℕ) (b : Bool) (rest : Fields)
    → at n (wire_flag k b ++ rest)
      ≡ (if k == n then (if b then some (flag true) else at n rest) else at n rest)
unfolding at
at-wire_flag n k true rest = refl
at-wire_flag n k false rest = ground arith

at-last :
    (n k : ℕ) (b : Bool)
    → at n (wire_flag k b) ≡ (if k == n then (if b then some (flag true) else none) else none)
unfolding at
at-last n k true = refl
at-last n k false = ground arith

number-uint32 : (v : ℕ) → number (if v == 0 then none else some (uint32 v)) ≡ v
number-uint32 v = ground arith

number-enum : (v : ℕ) → number (if v == 0 then none else some (enum v)) ≡ v
number-enum v = ground arith

chars-if_text : (s : Text) → chars (if_text s none) ≡ s
chars-if_text [] = refl
chars-if_text (c ∷ s) = refl

truth-flag : (b : Bool) → truth (if b then some (flag true) else none) ≡ b
truth-flag true = refl
truth-flag false = refl

ruleset fields_at = (
  at-wire_uint32, at-wire_enum, at-wire_text, at-wire_flag, at-last, number-uint32, number-enum,
  chars-if_text, truth-flag,
)

field_transmission_id : (d : Contents) → number (at 1 (wire d)) ≡ d.transmission_id
field_transmission_id d = simp fields_at

field_packet_type : (d : Contents) → number (at 2 (wire d)) ≡ d.packet_type
field_packet_type d = simp fields_at

field_packet_flags : (d : Contents) → number (at 3 (wire d)) ≡ d.packet_flags
field_packet_flags d = simp fields_at

field_priority : (d : Contents) → number (at 4 (wire d)) ≡ d.priority
field_priority d = simp fields_at

field_service_method : (d : Contents) → chars (at 5 (wire d)) ≡ d.service_method
field_service_method d = simp fields_at

field_is_cancelled : (d : Contents) → truth (at 6 (wire d)) ≡ d.is_cancelled
field_is_cancelled d = simp fields_at

field_is_failed : (d : Contents) → truth (at 7 (wire d)) ≡ d.is_failed
field_is_failed d = simp fields_at

contents_of-wire : (d : Contents) → contents_of (wire d) ≡ d
unfolding contents_of
contents_of-wire d i = record {
  transmission_id = field_transmission_id d i;
  packet_type = field_packet_type d i;
  packet_flags = field_packet_flags d i;
  priority = field_priority d i;
  service_method = field_service_method d i;
  is_cancelled = field_is_cancelled d i;
  is_failed = field_is_failed d i;
}

abbrev pub reference_contexts : MessageClass Contents
reference_contexts = record {
  byte_size = λ d. length (encode (wire d));
  serialize_to_string = λ d. encode (wire d);
  from_string = λ bytes. ok (contents_of (decode at_start bytes));
}

pub reference_format : WireFormat reference reference_wire reference_contexts
unfolding reference_wire
reference_format = record {
  sized = λ d. refl;
  reads = λ bytes d range p. ap ok (ap contents_of p ∙ contents_of-wire d);
  writes = λ d range. (decode-encode (wire d), length-encode (wire d));
}
