-- ===== src/Examples/Complicated/Message/RoundTrip.antt =====
-- What the inner message writes and reads: it is generated as the echo message is.
use pymaid.Prelude.{ℕ, ◌<◌, ◌≡◌, List, Text, length, ok, IsWellFormed}
use pymaid.Js.{str}
use pymaid.Jspb.{Jspb}
use pymaid.Jspb.Laws.{Scalar, WireLaws, MessageLaws}
use pymaid.Pb.Pieces.{wire_text, Appends}
use pymaid.Examples.Echo
use pymaid.Examples.Echo.RoundTrip
use pymaid.Examples.Complicated.Message.{
  get_message, read_field, serialize_binary_to_writer, deserialize_binary_from_reader,
}

module _ (j : Jspb) (laws : MessageLaws j) (wire_laws : WireLaws j) where
  open j use {Message, Writer, Reader, initialize}
  open wire_laws use {Wrote, Pending}

  pub serialize_binary_to_writer-wire :
      (msg : Message) (s : Text) (w : Writer) (before : List (ℕ × Scalar))
      → get_message j msg ≡ str s
      → IsWellFormed s
      → Wrote w before
      → Appends j wire_laws before (wire_text 1 s) (serialize_binary_to_writer j msg w)
  unfolding serialize_binary_to_writer Echo.serialize_binary_to_writer
  serialize_binary_to_writer-wire = RoundTrip.serialize_binary_to_writer-wire j laws wire_laws

  pub deserialize_binary_from_reader-wire :
      (s : Text) (fuel : ℕ) (r : Reader)
      → Pending r (wire_text 1 s)
      → length (wire_text 1 s) < fuel
      → (msg : Message) × (deserialize_binary_from_reader j fuel initialize r ≡ ok msg)
        × (get_message j msg ≡ str s)
  unfolding deserialize_binary_from_reader Echo.deserialize_binary_from_reader read_field
      Echo.read_field
  deserialize_binary_from_reader-wire =
      RoundTrip.deserialize_binary_from_reader-wire j laws wire_laws
