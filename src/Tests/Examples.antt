-- ===== src/Tests/Examples.antt =====
-- The messages of the examples, and an exchange of the echo service.
use pymaid.Prelude.{
  ℕ, ◌≡◌, refl, [], ◌∷◌, Text, Bytes, codes, Option, none, some, ok, arith, IsWellFormed,
  if◌then◌else◌, ◌==◌, Bool-cases, inl, inr,
}
use pymaid.Js.{num, str, arr}
use pymaid.Jspb.Laws.{nums}
use pymaid.Jspb.Reference.{reference, reference_messages, reference_wire}
use pymaid.Jspb.Reference.Messages.{bare, with_value, with_wrapper, with_map, leaf, bud}
use pymaid.Jspb.Nested.Reference.{nested_reference_messages, nested_reference_wire}
use pymaid.Jspb.Nested.Reference.Operations.{nested_reference}
use pymaid.Examples.Echo
use pymaid.Examples.Echo.RoundTrip.{deserialize_binary-serialize_binary_echo}
use pymaid.Examples.Complicated
use pymaid.Examples.Complicated.Contents.{Contents, InRange, Holds}
use pymaid.Examples.Complicated.RoundTrip.{deserialize_binary-serialize_binary_complicated}

abbrev pub hello : Text
hello = codes "hello"

pub hello-IsWellFormed : IsWellFormed hello
hello-IsWellFormed = ground arith

abbrev echo : reference.Message
echo = with_value 1 (str hello) bare

deserialize_binary-serialize_binary_echo_example :
    (bytes : Bytes) × (msg' : reference.Message) × (Echo.serialize_binary reference echo ≡ ok bytes)
    × (Echo.deserialize_binary reference bytes ≡ ok msg')
    × (Echo.get_message reference msg' ≡ str hello)
deserialize_binary-serialize_binary_echo_example =
    deserialize_binary-serialize_binary_echo reference reference_messages reference_wire echo hello
      refl hello-IsWellFormed

-- What the script of the example sends.
abbrev full : reference.Message
full = with_wrapper 1 echo (
    with_value 2 (arr (nums (1 ∷ 2 ∷ 3 ∷ [])))
      (with_map 3 (leaf 1 echo bud) (with_value 4 (num 5) bare)))

abbrev full_texts : ℕ → Option Text
full_texts k = if 1 == k then some hello else none

abbrev full_contents : Contents
full_contents = record {
  message = some hello;
  uints = 1 ∷ 2 ∷ 3 ∷ [];
  messages = full_texts;
  count = 5;
}

full-InRange : InRange full_contents
full-InRange = record {
  message = hello-IsWellFormed;
  uints = (omega arith, (omega arith, (omega arith, tt)));
  messages = λ k. elim (Bool-cases (1 == k)) [
    | inl same ↦ rw same (ground arith, hello-IsWellFormed)
    | inr differ ↦ rw differ tt
  ];
  count = omega arith;
}

full-Holds :
    Holds reference nested_reference reference_messages nested_reference_messages full full_contents
unfolding nested_reference_messages
full-Holds = record {
  message = refl;
  uints = refl;
  messages =
      λ k. elim (Bool-cases (1 == k)) [ inl same ↦ rw same refl | inr differ ↦ rw differ tt ];
  count = refl;
}

deserialize_binary-serialize_binary_complicated_example :
    (bytes : Bytes) × (m' : reference.Message) × (Complicated.serialize_binary reference
        nested_reference full
      ≡ ok bytes)
    × (Complicated.deserialize_binary reference nested_reference bytes ≡ ok m')
    × Holds reference nested_reference reference_messages nested_reference_messages m' full_contents
deserialize_binary-serialize_binary_complicated_example =
    deserialize_binary-serialize_binary_complicated reference nested_reference reference_messages
      nested_reference_messages reference_wire nested_reference_wire full full_contents full-Holds
      full-InRange
