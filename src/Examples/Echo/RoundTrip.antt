-- ===== src/Examples/Echo/RoundTrip.antt =====
-- An echo message on the wire.
use pymaid.Prelude.{
  ℕ, suc, ◌≡◌, refl, ◌<◌, [], ◌∷◌, List, Text, Bytes, length, ok, ◌==◌, if◌then◌else◌, arith,
  IsWellFormed,
}
use pymaid.Js.{str}
use pymaid.Jspb.{Jspb}
use pymaid.Jspb.Laws.{Scalar, text, value_of, WireLaws, MessageLaws}
use pymaid.Pb.Wire.{Handles, applies, read_loop-applies}
use pymaid.Pb.Pieces.{wire_text, All-wire_text, write_text_piece, Appends}
use pymaid.Pb.Cells.{Sets, Sets-text, get_field-shown}
use pymaid.Examples.Echo.{
  get_message, set_message, read_field, serialize_binary, serialize_binary_to_writer,
  deserialize_binary, deserialize_binary_from_reader,
}

module _ (j : Jspb) (laws : MessageLaws j) (wire_laws : WireLaws j) where
  open j use {Message, Writer, Reader, initialize, new_reader, new_writer, get_result_buffer}
  open wire_laws use {Wrote, Wrote-new, Wrote-le, Pending, Pending-new, read_string_lem}

  abbrev set_numbered : ℕ × Scalar → Message → Message
  set_numbered (n, s) msg = if n == 1 then set_message j msg (value_of s) else msg

  Handled-text : (s : Text) → Handles j wire_laws (read_field j) set_numbered (1, text s)
  unfolding read_field
  Handled-text s msg r rest h = let (r', e, p) = read_string_lem r s rest h in (r', rw e, p)

  abbrev given : List (ℕ × Scalar) → Message → Message
  given = applies j wire_laws set_numbered

  given-text :
      (s : Text) → Sets j laws initialize (given (wire_text 1 s) initialize) 1 (str s) (str [])
  given-text [] = Sets-text j laws initialize 1 [] (laws.stored-initialize 1)
  given-text (c ∷ s) = Sets-text j laws initialize 1 (c ∷ s) (laws.stored-initialize 1)

  pub serialize_binary_to_writer-wire :
      (msg : Message) (s : Text) (w : Writer) (before : List (ℕ × Scalar))
      → get_message j msg ≡ str s
      → IsWellFormed s
      → Wrote w before
      → Appends j wire_laws before (wire_text 1 s) (serialize_binary_to_writer j msg w)
  unfolding serialize_binary_to_writer
  serialize_binary_to_writer-wire msg s w before h well so_far =
      rw h (write_text_piece j wire_laws 1 s w before refl well so_far)

  -- A reader with the field of a text gives a message with the text; two rounds are enough.
  pub deserialize_binary_from_reader-wire :
      (s : Text) (fuel : ℕ) (r : Reader)
      → Pending r (wire_text 1 s)
      → length (wire_text 1 s) < fuel
      → (msg : Message) × (deserialize_binary_from_reader j fuel initialize r ≡ ok msg)
        × (get_message j msg ≡ str s)
  unfolding deserialize_binary_from_reader
  deserialize_binary_from_reader-wire s fuel r left enough = (
    given (wire_text 1 s) initialize,
    read_loop-applies j wire_laws (read_field j) set_numbered (wire_text 1 s) fuel initialize r
        (All-wire_text (Handles j wire_laws (read_field j) set_numbered) 1 s (Handled-text s)) left
        enough,
    get_field-shown j laws (given (wire_text 1 s) initialize) 1 (given-text s).there,
  )

  -- The bytes of an echo message with a text that has a UTF-8 form read as a message with this text.
  pub deserialize_binary-serialize_binary_echo :
      (msg : Message) (s : Text)
      → get_message j msg ≡ str s
      → IsWellFormed s
      → (bytes : Bytes) × (msg' : Message) × (serialize_binary j msg ≡ ok bytes)
        × (deserialize_binary j bytes ≡ ok msg')
        × (get_message j msg' ≡ str s)
  unfolding serialize_binary deserialize_binary
  deserialize_binary-serialize_binary_echo msg s h well =
      let (w, e, wrote) = serialize_binary_to_writer-wire msg s new_writer [] h well Wrote-new in
      let bytes = get_result_buffer w in
      let fits = Wrote-le w (wire_text 1 s) wrote in
      let (msg', read, same) =
        deserialize_binary_from_reader-wire s (suc (length bytes)) (new_reader bytes)
          (Pending-new w (wire_text 1 s) wrote) (omega arith) in
      (bytes, msg', rw e refl, read, same)
