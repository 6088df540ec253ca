-- ===== src/Pb/Context/Writing.antt =====
-- What `serializeBinary` writes.
use pymaid.Prelude.{◌≡◌, ◌≤◌, length, List, ◌++◌, append_assoc, Bytes, ok, ℕ, [], refl}
use pymaid.Jspb.{Jspb}
use pymaid.Jspb.Laws.{Scalar, WireLaws}
use pymaid.Pb.Pieces.{
  Appends, write_uint32_piece, write_enum_piece, write_text_piece, write_flag_piece,
}
use pymaid.Pb.Context.{serialize_binary, serialize_binary_to_writer}
use pymaid.Pb.Context.Contents.{Contents, InRange, wire, Holds}

regroup {ℓ} :
    {A : Type ℓ} (w a b c d e f g : List A)
    → ((((((w ++ a) ++ b) ++ c) ++ d) ++ e) ++ f) ++ g
      ≡ w ++ (a ++ (b ++ (c ++ (d ++ (e ++ (f ++ g))))))
regroup w a b c d e f g = simp append_assoc

module _ (j : Jspb) (laws : WireLaws j) where
  open j use {Message, Writer, new_writer, new_reader, get_result_buffer}
  open laws use {Wrote, Wrote-new, Wrote-le, Pending, Pending-new}

  pub serialize_binary_to_writer-wire :
      (m : Message) (d : Contents) (w : Writer) (before : List (ℕ × Scalar))
      → Holds j m d
      → InRange d
      → Wrote w before
      → Appends j laws before (wire d) (serialize_binary_to_writer j m w)
  unfolding serialize_binary_to_writer
  serialize_binary_to_writer-wire m d w before h r so_far =
      let (w1, e1, a1) =
        write_uint32_piece j laws 1 d.transmission_id w _ refl r.transmission_id so_far in
      let (w2, e2, a2) = write_enum_piece j laws 2 d.packet_type w1 _ refl r.packet_type a1 in
      let (w3, e3, a3) = write_enum_piece j laws 3 d.packet_flags w2 _ refl r.packet_flags a2 in
      let (w4, e4, a4) = write_enum_piece j laws 4 d.priority w3 _ refl r.priority a3 in
      let (w5, e5, a5) = write_text_piece j laws 5 d.service_method w4 _ refl r.service_method a4 in
      let (w6, e6, a6) = write_flag_piece j laws 6 d.is_cancelled w5 _ refl a5 in
      let (w7, e7, a7) = write_flag_piece j laws 7 d.is_failed w6 _ refl a6 in
      (
        w7,
        rw
            (
              h.transmission_id, h.packet_type, h.packet_flags, h.priority, h.service_method,
              h.is_cancelled, h.is_failed,
            )
            (rw (e1, e2, e3, e4, e5, e6, e7)),
        rw (← regroup before _ _ _ _ _ _ _) a7,
      )

  -- The bytes of a message, read back, are its fields.
  pub serialize_binary-wire :
      (m : Message) (d : Contents)
      → Holds j m d
      → InRange d
      → (bytes : Bytes) × (serialize_binary j m ≡ ok bytes)
        × Pending (new_reader bytes) (wire d)
        × (length (wire d) ≤ length bytes)
  unfolding serialize_binary
  serialize_binary-wire m d h r =
      let (w, e, a) = serialize_binary_to_writer-wire m d new_writer [] h r Wrote-new in
      (get_result_buffer w, rw e, Pending-new w (wire d) a, Wrote-le w (wire d) a)
