-- ===== src/Api/Errors.antt =====
-- The ErrorMessage with which a connection that closes answers its open requests.
use pymaid.Prelude.{
  ℕ, suc, ◌-◌, ◌≤◌, ◌≡◌, refl, [], Text, codes, IsWellFormed, ok, arith, Bytes, eq_text, ends_with,
  Ends, Ends->>=,
}
use pymaid.Js.{Value, num, str, obj, end, field, get, put, has_own, keys}
use pymaid.Jspb.{Jspb}
use pymaid.Jspb.Laws.{MessageLaws, ReaderLaws, WireLaws}
use pymaid.Names.Defs.{underscore, camel, underscore_key, camel_key, convert}
use pymaid.Convert.Loop.{loop}
use pymaid.Convert.Instantiate.{instantiate_transform, instantiate_body, is_pbmap}
use pymaid.Convert.Deserialize.{deserialize_transform, deserialize_body}
use pymaid.Pb.ErrorMessage.{from_object, to_object, deserialize_binary}
use pymaid.Pb.ErrorMessage.RoundTrip.{Holds, deserialize_binary-serialize_binary_error}
use pymaid.Pb.ErrorMessage.Reading.{deserialize_binary-Holds}
use pymaid.Api.{error_message_type, instantiate, deserialize, serialize, instance_of}

abbrev pub error_data : Text → Value
error_data message =
    obj (field (codes "code") (num 400) (field (codes "message") (str message) end))

-- What `pb.deserialize(pb.ErrorMessage, _)` returns for three texts.
abbrev pub error_object : Text → Text → Text → Value
error_object code message details = obj (
    field (codes "code") (str code)
      (field (codes "message") (str message) (field (codes "data") (str details) end)))

enough : (fuel : ℕ) → 5 ≤ fuel → fuel ≡ suc (suc (suc (suc (suc (fuel - 5)))))
enough fuel h = omega arith

transform-error_data :
    (f : ℕ) (s : Text)
    → instantiate_transform (suc (suc (suc (suc (suc f))))) (error_data s) ≡ ok (error_data s)
unfolding instantiate_transform loop instantiate_body is_pbmap keys has_own get ends_with eq_text
transform-error_data f s = refl

transform-error_object :
    (f : ℕ) (c m d : Text)
    → deserialize_transform (suc (suc (suc (suc (suc f))))) (error_object c m d)
      ≡ ok (error_object c m d)
unfolding deserialize_transform loop deserialize_body keys has_own get ends_with eq_text
transform-error_object f c m d = refl

module _ (j : Jspb) (laws : MessageLaws j) where
  open j use {Message, initialize, set_field}
  open laws use {stored, stored-initialize, get_field_lem, set_field_lem}

  abbrev error_message : Text → Message
  error_message s = set_field (set_field initialize 1 (num 400)) 2 (str s)

  instantiate-error_data :
      (fuel : ℕ) (s : Text)
      → 5 ≤ fuel
      → instantiate fuel (error_message_type j) (error_data s) ≡ ok (error_message s)
  unfolding instantiate camel convert camel_key put get eq_text from_object
  instantiate-error_data fuel s h = rw (enough fuel h, transform-error_data (fuel - 5) s)

  error_message-Holds : (s : Text) → Holds j (error_message s) (num 400) (str s) (str [])
  error_message-Holds s = record {
    code = simp (get_field_lem, set_field_lem);
    message = simp (get_field_lem, set_field_lem);
    details = simp (get_field_lem, set_field_lem, stored-initialize);
  }

  object-Holds :
      (m : Message) (c t d : Text)
      → Holds j m (str c) (str t) (str d)
      → underscore (to_object j m) ≡ error_object c t d
  unfolding to_object underscore convert underscore_key put eq_text
  object-Holds m c t d h = rw (h.code, h.message, h.details)

  -- `pb.deserialize(pb.ErrorMessage, bytes)` throws or returns an object of three texts.
  pub deserialize_error_lem :
      (readers : ReaderLaws j) (fuel : ℕ) (bytes : Bytes)
      → 5 ≤ fuel
      → Ends
          (λ v. (c t d : Text) × (v ≡ error_object c t d))
          (deserialize fuel (error_message_type j) bytes)
  unfolding deserialize
  deserialize_error_lem readers fuel bytes h =
      Ends->>= (λ m. (c t d : Text) × Holds j m (str c) (str t) (str d)) _
        (deserialize_binary j bytes) _ (deserialize_binary-Holds j laws readers bytes)
        λ m (c, t, d, holds).
          rw (object-Holds m c t d holds, enough fuel h, transform-error_object (fuel - 5) c t d)
            (c, t, d, refl)

  module _ (wire_laws : WireLaws j) where
    -- The error that is built with the code 400 is serialized, and reads as one with an empty code.
    pub error_data_lem :
        (fuel : ℕ) (s : Text)
        → 5 ≤ fuel
        → IsWellFormed s
        → (m : Message) × (bytes : Bytes) × (instantiate fuel (error_message_type j) (error_data s)
            ≡ ok m)
          × (serialize (instance_of (error_message_type j) m) ≡ ok bytes)
          × (deserialize fuel (error_message_type j) bytes ≡ ok (error_object [] s []))
    unfolding serialize deserialize
    error_data_lem fuel s h well =
        let (bytes, m', written, read, same) =
          deserialize_binary-serialize_binary_error j wire_laws laws (error_message s) (num 400)
            (str s) (str []) (error_message-Holds s) tt well tt in
        (
          error_message s,
          bytes,
          instantiate-error_data fuel s h,
          written,
          rw (
            read,
            object-Holds m' [] s [] same,
            enough fuel h,
            transform-error_object (fuel - 5) [] s [],
          ),
        )
