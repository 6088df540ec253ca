-- ===== src/Pb/Context/Reading.antt =====
-- What `deserializeBinary` makes of the fields that it is given.
use pymaid.Prelude.{
  ℕ, suc, ◌≤◌, ◌≡◌, ◌⊎◌, refl, Bool, Text, Bytes, length, All, All-append, ◌==◌, if◌then◌else◌, ok,
  arith, inl, inr,
}
use pymaid.Jspb.{Jspb}
use pymaid.Jspb.Laws.{Scalar, uint32, enum, text, flag, value_of, WireLaws}
use pymaid.Pb.Wire.{Handles, applies, read_loop-applies}
use pymaid.Pb.Pieces.{All-wire_uint32, All-wire_enum, All-wire_text, All-wire_flag}
use pymaid.Pb.Context.{
  read_field, deserialize_binary, deserialize_binary_from_reader, set_transmission_id,
  set_packet_type, set_packet_flags, set_priority, set_service_method, set_is_cancelled,
  set_is_failed,
}
use pymaid.Pb.Context.Contents.{Contents, wire}

module _ (j : Jspb) where
  open j use {Message, new_reader, initialize}

  -- The setter that `read_field` calls for a field.
  abbrev pub set_numbered : ℕ × Scalar → Message → Message
  set_numbered (n, s) msg =
      if n == 1
      then set_transmission_id j msg (value_of s)
      else if n == 2
      then set_packet_type j msg (value_of s)
      else if n == 3
      then set_packet_flags j msg (value_of s)
      else if n == 4
      then set_priority j msg (value_of s)
      else if n == 5
      then set_service_method j msg (value_of s)
      else if n == 6
      then set_is_cancelled j msg (value_of s)
      else if n == 7
      then set_is_failed j msg (value_of s)
      else msg

  module _ (laws : WireLaws j) where
    open laws use {Pending, read_uint32_lem, read_enum_lem, read_string_lem, read_bool_lem}

    abbrev Handled : ℕ × Scalar → Type 0
    Handled = Handles j laws (read_field j) set_numbered

    Handled-uint32 : (v : ℕ) → Handled (1, uint32 v)
    unfolding read_field
    Handled-uint32 v msg r rest h = let (r', e, p) = read_uint32_lem r v rest h in (r', rw e, p)

    Handled-enum : (n v : ℕ) → (n ≡ 2) ⊎ ((n ≡ 3) ⊎ (n ≡ 4)) → Handled (n, enum v)
    unfolding read_field
    Handled-enum n v (inl q) msg r rest h =
        let (r', e, p) = read_enum_lem r v rest h in (r', rw (q, e), p)
    Handled-enum n v (inr (inl q)) msg r rest h =
        let (r', e, p) = read_enum_lem r v rest h in (r', rw (q, e), p)
    Handled-enum n v (inr (inr q)) msg r rest h =
        let (r', e, p) = read_enum_lem r v rest h in (r', rw (q, e), p)

    Handled-text : (s : Text) → Handled (5, text s)
    unfolding read_field
    Handled-text s msg r rest h = let (r', e, p) = read_string_lem r s rest h in (r', rw e, p)

    Handled-flag : (n : ℕ) (b : Bool) → (n ≡ 6) ⊎ (n ≡ 7) → Handled (n, flag b)
    unfolding read_field
    Handled-flag n b (inl q) msg r rest h =
        let (r', e, p) = read_bool_lem r b rest h in (r', rw (q, e), p)
    Handled-flag n b (inr q) msg r rest h =
        let (r', e, p) = read_bool_lem r b rest h in (r', rw (q, e), p)

    Handled-wire : (d : Contents) → All Handled (wire d)
    Handled-wire d =
        All-append Handled _ _ (All-wire_uint32 Handled 1 d.transmission_id (Handled-uint32 _)) (
          All-append Handled _ _
            (All-wire_enum Handled 2 d.packet_type (Handled-enum 2 _ (inl refl)))
            (All-append Handled _ _
              (All-wire_enum Handled 3 d.packet_flags (Handled-enum 3 _ (inr (inl refl))))
              (All-append Handled _ _
                (All-wire_enum Handled 4 d.priority (Handled-enum 4 _ (inr (inr refl))))
                (All-append Handled _ _ (All-wire_text Handled 5 d.service_method (Handled-text _))
                  (All-append Handled _ _
                    (All-wire_flag Handled 6 d.is_cancelled (Handled-flag 6 _ (inl refl)))
                    (All-wire_flag Handled 7 d.is_failed (Handled-flag 7 _ (inr refl))))))))

    -- Reading sets the fields one after the other.
    pub deserialize_binary-applies :
        (bytes : Bytes) (d : Contents)
        → Pending (new_reader bytes) (wire d)
        → length (wire d) ≤ length bytes
        → deserialize_binary j bytes ≡ ok (applies j laws set_numbered (wire d) initialize)
    unfolding deserialize_binary deserialize_binary_from_reader
    deserialize_binary-applies bytes d p fits =
        read_loop-applies j laws (read_field j) set_numbered (wire d) (suc (length bytes))
          initialize (new_reader bytes) (Handled-wire d) p (omega arith)
