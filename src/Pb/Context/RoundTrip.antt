-- ===== src/Pb/Context/RoundTrip.antt =====
-- A Context that is serialized and deserialized is read by its getters as before.
use pymaid.Prelude.{
  length, ◌≤◌, ℕ, ◌≡◌, refl, Bool, true, false, [], ◌∷◌, List, Text, Bytes, ◌==◌, ok, arith,
  Bool-cases, inl, inr,
}
use pymaid.Js.{bool, num, str}
use pymaid.Jspb.{Jspb}
use pymaid.Jspb.Laws.{Scalar, enum, flag, WireLaws, MessageLaws}
use pymaid.Pb.Wire.{applies, applies-append}
use pymaid.Pb.Pieces.{wire_uint32, wire_enum, wire_text, wire_flag}
use pymaid.Pb.Cells.{
  Sets, Sets-int, Sets-enum, Sets-text, Sets-flag, Turns, stop, turn, later, Fresh, Fresh-next,
  get_field-shown, get_boolean-shown,
}
use pymaid.Pb.Context.{serialize_binary, deserialize_binary}
use pymaid.Pb.Context.Contents.{Contents, InRange, wire, Holds}
use pymaid.Pb.Context.Writing.{serialize_binary-wire}
use pymaid.Pb.Context.Reading.{set_numbered, deserialize_binary-applies}

module _ (j : Jspb) (laws : MessageLaws j) (wire_laws : WireLaws j) where
  open j use {Message, initialize}
  open laws use {stored, stored-initialize}

  abbrev given : List (ℕ × Scalar) → Message → Message
  given = applies j wire_laws (set_numbered j)

  given-uint32 :
      (m : Message) (v : ℕ)
      → Fresh j laws m 1
      → Sets j laws m (given (wire_uint32 1 v) m) 1 (num v) (num 0)
  given-uint32 m v fresh = elim (Bool-cases (v == 0)) [
    | inl zero_value ↦
        rw zero_value (rw zero_value at (Sets-int j laws m 1 v (fresh 1 (omega arith))))
    | inr value ↦ rw value (rw value at (Sets-int j laws m 1 v (fresh 1 (omega arith))))
  ]

  -- For a field that the switch sets by `set_proto3_enum_field`.
  given-enum :
      (m : Message) (n v : ℕ)
      → set_numbered j (n, enum v) m ≡ j.set_proto3_enum_field m n (num v)
      → Fresh j laws m n
      → Sets j laws m (given (wire_enum n v) m) n (num v) (num 0)
  given-enum m n v same fresh = elim (Bool-cases (v == 0)) [
    | inl zero_value ↦
        rw zero_value (rw zero_value at (Sets-enum j laws m n v (fresh n (omega arith))))
    | inr value ↦ rw (value, same) (rw value at (Sets-enum j laws m n v (fresh n (omega arith))))
  ]

  given-text :
      (m : Message) (s : Text)
      → Fresh j laws m 5
      → Sets j laws m (given (wire_text 5 s) m) 5 (str s) (str [])
  given-text m [] fresh = Sets-text j laws m 5 [] (fresh 5 (omega arith))
  given-text m (c ∷ s) fresh = Sets-text j laws m 5 (c ∷ s) (fresh 5 (omega arith))

  given-flag :
      (m : Message) (n : ℕ) (b : Bool)
      → set_numbered j (n, flag true) m ≡ j.set_proto3_boolean_field m n (bool true)
      → Fresh j laws m n
      → Sets j laws m (given (wire_flag n b) m) n (bool b) (bool false)
  given-flag m n true same fresh = rw same (Sets-flag j laws m n true (fresh n (omega arith)))
  given-flag m n false same fresh = Sets-flag j laws m n false (fresh n (omega arith))

  in_turn :
      (d : Contents)
      → given (wire d) initialize
        ≡ given (wire_flag 7 d.is_failed) (
            given (wire_flag 6 d.is_cancelled) (
              given (wire_text 5 d.service_method) (
                given (wire_enum 4 d.priority) (
                  given (wire_enum 3 d.packet_flags) (
                    given
                      (wire_enum 2 d.packet_type)
                      (given (wire_uint32 1 d.transmission_id) initialize))))))
  in_turn d = simp (applies-append j wire_laws (set_numbered j))

  given-wire-Holds : (d : Contents) → Holds j (given (wire d) initialize) d
  given-wire-Holds d =
      let m1 = given (wire_uint32 1 d.transmission_id) initialize in
      let m2 = given (wire_enum 2 d.packet_type) m1 in
      let m3 = given (wire_enum 3 d.packet_flags) m2 in
      let m4 = given (wire_enum 4 d.priority) m3 in
      let m5 = given (wire_text 5 d.service_method) m4 in
      let m6 = given (wire_flag 6 d.is_cancelled) m5 in
      let m7 = given (wire_flag 7 d.is_failed) m6 in
      let f1 : Fresh j laws initialize 1 = λ k h. stored-initialize k in
      let s1 = given-uint32 initialize d.transmission_id f1 in
      let f2 = Fresh-next j laws 1 s1 f1 in
      let s2 = given-enum m1 2 d.packet_type refl f2 in
      let f3 = Fresh-next j laws 2 s2 f2 in
      let s3 = given-enum m2 3 d.packet_flags refl f3 in
      let f4 = Fresh-next j laws 3 s3 f3 in
      let s4 = given-enum m3 4 d.priority refl f4 in
      let f5 = Fresh-next j laws 4 s4 f4 in
      let s5 = given-text m4 d.service_method f5 in
      let f6 = Fresh-next j laws 5 s5 f5 in
      let s6 = given-flag m5 6 d.is_cancelled refl f6 in
      let s7 = given-flag m6 7 d.is_failed refl (Fresh-next j laws 6 s6 f6) in
      let t8 : Turns j laws m7 m7 8 = stop 8 in
      let t7 = turn 7 s7 t8 in
      let t6 = turn 6 s6 t7 in
      let t5 = turn 5 s5 t6 in
      let t4 = turn 4 s4 t5 in
      let t3 = turn 3 s3 t4 in
      let t2 = turn 2 s2 t3 in
      rw (in_turn d) (record {
        transmission_id =
            get_field-shown j laws m7 1 (later j laws 1 (num 0) t2 (omega arith) s1.there);
        packet_type =
            get_field-shown j laws m7 2 (later j laws 2 (num 0) t3 (omega arith) s2.there);
        packet_flags =
            get_field-shown j laws m7 3 (later j laws 3 (num 0) t4 (omega arith) s3.there);
        priority = get_field-shown j laws m7 4 (later j laws 4 (num 0) t5 (omega arith) s4.there);
        service_method =
            get_field-shown j laws m7 5 (later j laws 5 (str []) t6 (omega arith) s5.there);
        is_cancelled =
            get_boolean-shown j laws m7 6 d.is_cancelled
              (later j laws 6 (bool false) t7 (omega arith) s6.there);
        is_failed =
            get_boolean-shown j laws m7 7 d.is_failed
              (later j laws 7 (bool false) t8 (omega arith) s7.there);
      })

  -- Bytes with the fields of `d` read as a message with the contents `d`.
  pub deserialize_binary-wire :
      (bytes : Bytes) (d : Contents)
      → wire_laws.Pending (j.new_reader bytes) (wire d)
      → length (wire d) ≤ length bytes
      → (m : Message) × (deserialize_binary j bytes ≡ ok m) × Holds j m d
  deserialize_binary-wire bytes d p fits = (
    given (wire d) initialize,
    deserialize_binary-applies j wire_laws bytes d p fits,
    given-wire-Holds d,
  )

  -- Reading the bytes that a message with the contents `d` was serialized to gives a message with
  -- the same contents, if they are within their types.
  pub deserialize_binary-serialize_binary :
      (m : Message) (d : Contents)
      → Holds j m d
      → InRange d
      → (bytes : Bytes) × (m' : Message) × (serialize_binary j m ≡ ok bytes)
        × (deserialize_binary j bytes ≡ ok m')
        × Holds j m' d
  deserialize_binary-serialize_binary m d h r =
      let (bytes, e, p, fits) = serialize_binary-wire j wire_laws m d h r in
      let (m', read, holds) = deserialize_binary-wire bytes d p fits in (bytes, m', e, read, holds)
