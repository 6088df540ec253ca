-- ===== src/Pb/ErrorMessage/RoundTrip.antt =====
-- An ErrorMessage that is serialized and deserialized: its texts come back, and a field that was set
-- to a number comes back empty.
use pymaid.Prelude.{
  ℕ, suc, ◌≡◌, refl, ◌++◌, ◌≤◌, ◌⊎◌, [], ◌∷◌, List, Text, Bytes, length, length, All, All-append,
  append_assoc, ok, ◌==◌, if◌then◌else◌, arith, inl, inr,
}
use pymaid.Js.{Value, str}
use pymaid.Jspb.{Jspb}
use pymaid.Jspb.Laws.{Scalar, text, value_of, WireLaws, MessageLaws}
use pymaid.Pb.Wire.{Handles, applies, applies-append, read_loop-applies}
use pymaid.Pb.Pieces.{wire_text, text_of, IsWritable, All-wire_text, write_value_piece}
use pymaid.Pb.Cells.{Sets, Sets-text, Turns, stop, turn, later, Fresh, Fresh-next, get_field-shown}
use pymaid.Pb.ErrorMessage.{
  get_code, get_message, get_data, set_code, set_message, set_data, read_field, serialize_binary,
  serialize_binary_to_writer, deserialize_binary, deserialize_binary_from_reader,
}

abbrev wire : Value → Value → Value → List (ℕ × Scalar)
wire c m d = wire_text 1 (text_of c) ++ (wire_text 2 (text_of m) ++ wire_text 3 (text_of d))

module _ (j : Jspb) where
  open j use {Message, initialize, new_reader, new_writer, get_result_buffer}

  -- The values that the getters read.
  pub record Holds (msg : Message) (c m d : Value) : Type 0 where
    pub code : get_code j msg ≡ c
    pub message : get_message j msg ≡ m
    pub details : get_data j msg ≡ d

  abbrev set_numbered : ℕ × Scalar → Message → Message
  set_numbered (n, s) msg =
      if n == 1
      then set_code j msg (value_of s)
      else if n == 2
      then set_message j msg (value_of s)
      else if n == 3
      then set_data j msg (value_of s)
      else msg

  module _ (wire_laws : WireLaws j) where
    open wire_laws use {Wrote, Wrote-new, Wrote-le, Pending, Pending-new, read_string_lem}

    serialize_binary-wire :
        (msg : Message) (c m d : Value)
        → Holds msg c m d
        → IsWritable c
        → IsWritable m
        → IsWritable d
        → (bytes : Bytes) × (serialize_binary j msg ≡ ok bytes)
          × Pending (new_reader bytes) (wire c m d)
          × (length (wire c m d) ≤ length bytes)
    unfolding serialize_binary serialize_binary_to_writer
    serialize_binary-wire msg c m d h p q r =
        let (w1, e1, a1) = write_value_piece j wire_laws 1 c new_writer [] refl p Wrote-new in
        let (w2, e2, a2) = write_value_piece j wire_laws 2 m w1 _ refl q a1 in
        let (w3, e3, a3) = write_value_piece j wire_laws 3 d w2 _ refl r a2 in
        let a : Wrote w3 (wire c m d) = rw (← append_assoc (wire_text 1 (text_of c)) _ _) a3 in
        (
          get_result_buffer w3,
          rw (h.code, h.message, h.details) (rw (e1, e2, e3)),
          Pending-new w3 (wire c m d) a,
          Wrote-le w3 (wire c m d) a,
        )

    abbrev Handled : ℕ × Scalar → Type 0
    Handled = Handles j wire_laws (read_field j) set_numbered

    Handled-text : (n : ℕ) (s : Text) → (n ≡ 1) ⊎ ((n ≡ 2) ⊎ (n ≡ 3)) → Handled (n, text s)
    unfolding read_field
    Handled-text n s (inl q) msg r rest h =
        let (r', e, p) = read_string_lem r s rest h in (r', rw (q, e), p)
    Handled-text n s (inr (inl q)) msg r rest h =
        let (r', e, p) = read_string_lem r s rest h in (r', rw (q, e), p)
    Handled-text n s (inr (inr q)) msg r rest h =
        let (r', e, p) = read_string_lem r s rest h in (r', rw (q, e), p)

    Handled-wire : (c m d : Value) → All Handled (wire c m d)
    Handled-wire c m d =
        All-append Handled _ _ (All-wire_text Handled 1 (text_of c) (Handled-text 1 _ (inl refl))) (
          All-append Handled _ _
            (All-wire_text Handled 2 (text_of m) (Handled-text 2 _ (inr (inl refl))))
            (All-wire_text Handled 3 (text_of d) (Handled-text 3 _ (inr (inr refl)))))

    abbrev given : List (ℕ × Scalar) → Message → Message
    given = applies j wire_laws set_numbered

    deserialize_binary-given :
        (bytes : Bytes) (c m d : Value)
        → Pending (new_reader bytes) (wire c m d)
        → length (wire c m d) ≤ length bytes
        → deserialize_binary j bytes ≡ ok (given (wire c m d) initialize)
    unfolding deserialize_binary deserialize_binary_from_reader
    deserialize_binary-given bytes c m d p fits =
        read_loop-applies j wire_laws (read_field j) set_numbered (wire c m d) (suc (length bytes))
          initialize (new_reader bytes) (Handled-wire c m d) p (omega arith)

    module _ (laws : MessageLaws j) where
      given-text :
          (msg : Message) (n : ℕ) (s : Text)
          → ((t : Text) → set_numbered (n, text t) msg ≡ j.set_proto3_string_field msg n (str t))
          → Fresh j laws msg n
          → Sets j laws msg (given (wire_text n s) msg) n (str s) (str [])
      given-text msg n [] same fresh = Sets-text j laws msg n [] (fresh n (omega arith))
      given-text msg n (x ∷ s) same fresh =
          rw (same (x ∷ s)) (Sets-text j laws msg n (x ∷ s) (fresh n (omega arith)))

      given-wire-Holds :
          (c m d : Value)
          → Holds
              (given (wire c m d) initialize)
              (str (text_of c))
              (str (text_of m))
              (str (text_of d))
      given-wire-Holds c m d =
          let m1 = given (wire_text 1 (text_of c)) initialize in
          let m2 = given (wire_text 2 (text_of m)) m1 in
          let m3 = given (wire_text 3 (text_of d)) m2 in
          let f1 : Fresh j laws initialize 1 = λ k h. laws.stored-initialize k in
          let s1 = given-text initialize 1 (text_of c) (λ t. refl) f1 in
          let f2 = Fresh-next j laws 1 s1 f1 in
          let s2 = given-text m1 2 (text_of m) (λ t. refl) f2 in
          let s3 = given-text m2 3 (text_of d) (λ t. refl) (Fresh-next j laws 2 s2 f2) in
          let t4 : Turns j laws m3 m3 4 = stop 4 in
          let t3 = turn 3 s3 t4 in
          let t2 = turn 2 s2 t3 in
          simp (applies-append j wire_laws set_numbered) (record {
            code = get_field-shown j laws m3 1 (later j laws 1 (str []) t2 (omega arith) s1.there);
            message =
                get_field-shown j laws m3 2 (later j laws 2 (str []) t3 (omega arith) s2.there);
            details =
                get_field-shown j laws m3 3 (later j laws 3 (str []) t4 (omega arith) s3.there);
          })

      -- Reading the bytes of an ErrorMessage gives back the fields that hold texts; a field that
      -- holds a number is empty, whatever the number.
      pub deserialize_binary-serialize_binary_error :
          (msg : Message) (c m d : Value)
          → Holds msg c m d
          → IsWritable c
          → IsWritable m
          → IsWritable d
          → (bytes : Bytes) × (msg' : Message) × (serialize_binary j msg ≡ ok bytes)
            × (deserialize_binary j bytes ≡ ok msg')
            × Holds msg' (str (text_of c)) (str (text_of m)) (str (text_of d))
      deserialize_binary-serialize_binary_error msg c m d h p q r =
          let (bytes, e, left, fits) = serialize_binary-wire msg c m d h p q r in
          (
            bytes,
            given (wire c m d) initialize,
            e,
            deserialize_binary-given bytes c m d left fits,
            given-wire-Holds c m d,
          )
