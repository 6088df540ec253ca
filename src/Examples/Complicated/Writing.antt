-- ===== src/Examples/Complicated/Writing.antt =====
-- What `serializeBinary` of a ComplicatedMessage writes.
use pymaid.Prelude.{
  ℕ, ◌<◌, ◌≤◌, ◌^◌, ◌≡◌, ◌⊎◌, inl, inr, refl, ◌++◌, List, [], ◌∷◌, Option, none, some, Text, Bytes,
  IsWellFormed, All, All-implies, ok, true, ltb, length, append-nil, append_assoc, arith,
}
use pymaid.Js.{str, arr}
use pymaid.Jspb.{Jspb}
use pymaid.Jspb.Laws.{Scalar, nums, MessageLaws, WireLaws}
use pymaid.Jspb.Nested.{Nested}
use pymaid.Jspb.Nested.Laws.{NestedMessageLaws, NestedWireLaws, ShowsEntry, Writes, Each, blocks}
use pymaid.Pb.Pieces.{wire_uint32, wire_text, write_uint32_piece}
use pymaid.Examples.Complicated.Message
use pymaid.Examples.Complicated.Message.RoundTrip
use pymaid.Examples.Complicated.{
  get_message, get_messages_map, find_messages_map, write_wrapped, write_uints, write_map,
  serialize_binary, serialize_binary_to_writer,
}
use pymaid.Examples.Complicated.Contents.{
  Contents, InRange, Holds, HasText, ShowsText, FitsEntry, WellFormedIfGiven, wire, wire_message,
  wire_uints, inner_fields,
}

module _ (j : Jspb) (nested : Nested j) (laws : MessageLaws j)
    (messages : NestedMessageLaws j nested laws) (wire_laws : WireLaws j)
    (nested_wire : NestedWireLaws j nested laws messages wire_laws) where
  open j use {Writer, Reader, new_writer, new_reader, get_result_buffer}
  open nested use {Map, map_length, find_map_field, get_map_field}
  open wire_laws use {Wrote, Wrote-new, Wrote-le, Pending, Pending-new}
  open messages use {entries, find, entries-find, find_map_lem, length_lem}

  inner-Writes :
      (m : j.Message) (s : Text)
      → Message.get_message j m ≡ str s
      → IsWellFormed s
      → Writes j nested laws messages wire_laws
          (Message.serialize_binary_to_writer j)
          m
          (wire_text 1 s)
  inner-Writes m s h well w before so_far =
      RoundTrip.serialize_binary_to_writer-wire j laws wire_laws m s w before h well so_far

  write_wrapped-wire :
      (o : Option j.Message) (t : Option Text) (w : Writer) (before : List (ℕ × Scalar))
      → HasText j nested o t
      → WellFormedIfGiven t
      → Wrote w before
      → (bytes : Option Bytes) × (w' : Writer) × (write_wrapped j nested o w ≡ ok w')
        × Wrote w' (before ++ wire_message bytes)
        × ShowsText j nested laws messages wire_laws bytes t
  write_wrapped-wire none none w before h well so_far =
      (none, w, refl, rw (append-nil before) so_far, tt)
  write_wrapped-wire (some m) (some s) w before h well so_far =
      let (bytes, w', e, wrote, shows) =
        nested_wire.write_message_lem _ 1 m w (wire_text 1 s) before refl (inner-Writes m s h well)
          so_far in
      (some bytes, w', e, wrote, shows)
  write_wrapped-wire none (some s) w before h well so_far = elim h [ ]
  write_wrapped-wire (some m) none w before h well so_far = elim h [ ]

  write_uints-wire :
      (ns : List ℕ) (w : Writer) (before : List (ℕ × Scalar))
      → All (λ n. n < 2 ^ 32) ns
      → Wrote w before
      → (w' : Writer) × (write_uints j nested (arr (nums ns)) w ≡ ok w')
        × Wrote w' (before ++ wire_uints ns)
  write_uints-wire [] w before h so_far = (w, refl, rw (append-nil before) so_far)
  write_uints-wire (n ∷ ns) w before h so_far =
      nested_wire.write_packed_lem 2 n ns w before refl h so_far

  -- An entry of the map has a key and a text within their types.
  entry-Writes :
      (k : ℕ) (m : j.Message) (t : Option Text)
      → HasText j nested (some m) t
      → FitsEntry k t
      → (k < 2 ^ 32)
        × Writes j nested laws messages wire_laws
            (Message.serialize_binary_to_writer j)
            m
            (inner_fields j nested m)
  entry-Writes k m none h fits = elim h [ ]
  entry-Writes k m (some s) h fits = (fits.0, rw h (inner-Writes m s h fits.1))

  entries_write :
      (map : Map) (texts : ℕ → Option Text)
      → ((k : ℕ) → HasText j nested (find map k) (texts k))
      → ((k : ℕ) → FitsEntry k (texts k))
      → All
          (λ e.
            (e.0 < 2 ^ 32)
            × Writes j nested laws messages wire_laws
                (Message.serialize_binary_to_writer j)
                e.1
                (inner_fields j nested e.1))
          (entries map)
  entries_write map texts h fits =
      All-implies _ _ (λ e here. entry-Writes e.0 e.1 (texts e.0) (rw here at (h e.0)) (fits e.0))
        (entries map) (entries-find map)

  given_or_empty : {A : Type 0} (xs : List A) → (xs ≡ []) ⊎ (ltb 0 (length xs) ≡ true)
  given_or_empty [] = inl refl
  given_or_empty (x ∷ xs) = inr (ground arith)

  no_entries :
      (w : Writer) (before : List (ℕ × Scalar)) (map : Map) (result : _)
      → entries map ≡ []
      → result ≡ ok w
      → Wrote w before
      → (all_bytes : List Bytes) × (w' : Writer) × (result ≡ ok w')
        × Wrote w' (before ++ blocks 3 all_bytes)
        × Each
            (ShowsEntry j nested laws messages wire_laws (inner_fields j nested))
            all_bytes
            (entries map)
  no_entries w before map result none_there e so_far =
      ([], w, e, rw (append-nil before) so_far, rw none_there tt)

  write_map-wire :
      (m : j.Message) (texts : ℕ → Option Text) (w : Writer) (before : List (ℕ × Scalar))
      → ((k : ℕ) → HasText j nested (find (get_messages_map j nested m) k) (texts k))
      → ((k : ℕ) → FitsEntry k (texts k))
      → Wrote w before
      → (all_bytes : List Bytes) × (w' : Writer) × (write_map j nested
            (find_messages_map j nested m)
            w
          ≡ ok w')
        × Wrote w' (before ++ blocks 3 all_bytes)
        × Each
            (ShowsEntry j nested laws messages wire_laws (inner_fields j nested))
            all_bytes
            (entries (get_messages_map j nested m))
  write_map-wire m texts w before h fits so_far = elim (find_map_lem m 3) [
    | inr (absent, empty) ↦ no_entries w before _ _ empty (rw absent refl) so_far
    | inl there ↦ elim (given_or_empty (entries (get_map_field m 3))) [
      | inl empty ↦
          no_entries w before _ _ empty (rw (there, length_lem (get_map_field m 3), empty) refl)
            so_far
      | inr some_there ↦
          let (all_bytes, w', e, wrote, shows) =
            nested_wire.map_serialize_lem (Message.serialize_binary_to_writer j)
              (inner_fields j nested) 3 (get_map_field m 3) w before refl
              (entries_write (get_map_field m 3) texts h fits) so_far in
          (all_bytes, w', rw (there, length_lem (get_map_field m 3), some_there) e, wrote, shows)
    ]
  ]

  regroup : (a b c d : List (ℕ × Scalar)) → ((([] ++ a) ++ b) ++ c) ++ d ≡ a ++ (b ++ (c ++ d))
  regroup a b c d = simp append_assoc

  -- The bytes of a message show its fields: the bytes of the inner message show its text, and those of
  -- the entries the map's.
  pub serialize_binary-wire :
      (m : j.Message) (d : Contents)
      → Holds j nested laws messages m d
      → InRange d
      → (inner : Option Bytes) × (all_bytes : List Bytes) × (bytes : Bytes) × (serialize_binary j
            nested m
          ≡ ok bytes)
        × Pending (new_reader bytes) (wire inner d.uints all_bytes d.count)
        × (length (wire inner d.uints all_bytes d.count) ≤ length bytes)
        × ShowsText j nested laws messages wire_laws inner d.message
        × Each
            (ShowsEntry j nested laws messages wire_laws (inner_fields j nested))
            all_bytes
            (entries (get_messages_map j nested m))
  unfolding serialize_binary serialize_binary_to_writer
  serialize_binary-wire m d h range =
      let (inner, w1, e1, a1, shows) =
        write_wrapped-wire (get_message j nested m) d.message new_writer [] h.message range.message
          Wrote-new in
      let (w2, e2, a2) = write_uints-wire d.uints w1 _ range.uints a1 in
      let (all_bytes, w3, e3, a3, entries_show) =
        write_map-wire m d.messages w2 _ h.messages range.messages a2 in
      let (w4, e4, a4) = write_uint32_piece j wire_laws 4 d.count w3 _ refl range.count a3 in
      let a : Wrote w4 (wire inner d.uints all_bytes d.count) =
        rw
          (← regroup (wire_message inner) (wire_uints d.uints) (blocks 3 all_bytes)
            (wire_uint32 4 d.count))
          a4 in
      (
        inner,
        all_bytes,
        get_result_buffer w4,
        rw (e1, h.uints) (rw (e2, e3, h.count) (rw e4 refl)),
        Pending-new w4 _ a,
        Wrote-le w4 _ a,
        shows,
        entries_show,
      )
