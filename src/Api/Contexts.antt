-- ===== src/Api/Contexts.antt =====
-- The Context that the client builds for a request, and what `unpack` makes of one.
use pymaid.Prelude.{
  ℕ, suc, ◌-◌, ◌≤◌, ◌≡◌, refl, false, Text, codes, ok, arith, Bytes, length, ◌<◌, ◌^◌, IsWellFormed,
  eq_text, ends_with,
}
use pymaid.Js.{Value, bool, num, str, obj, end, field, get, put, has_own, keys}
use pymaid.Jspb.{Jspb}
use pymaid.Jspb.Laws.{MessageLaws, WireLaws}
use pymaid.Names.Defs.{underscore, camel, underscore_key, camel_key, convert}
use pymaid.Convert.Loop.{loop}
use pymaid.Convert.Instantiate.{instantiate_transform, instantiate_body, is_pbmap}
use pymaid.Convert.Deserialize.{deserialize_transform, deserialize_body}
use pymaid.Pb.Context.{from_object}
use pymaid.Pb.Context.Contents.{Contents, InRange, Holds, object_of, wire, to_object-Holds}
use pymaid.Pb.Context.RoundTrip.{deserialize_binary-wire}
use pymaid.Pb.Context.Writing.{serialize_binary-wire}
use pymaid.Api.{context_type, instantiate, deserialize, serialize, instance_of}

-- The plain object with snake_case names that `pb.deserialize` returns for a Context.
abbrev pub context_object : Contents → Value
context_object d = obj (
    field (codes "transmission_id") (num d.transmission_id) (
      field (codes "packet_type") (num d.packet_type) (
        field (codes "packet_flags") (num d.packet_flags) (
          field (codes "priority") (num d.priority) (
            field (codes "service_method") (str d.service_method) (
              field (codes "is_cancelled") (bool d.is_cancelled)
                (field (codes "is_failed") (bool d.is_failed) end)))))))

underscore-object_of : (d : Contents) → underscore (object_of d) ≡ context_object d
unfolding underscore convert underscore_key put eq_text
underscore-object_of d = refl

transform-context_object :
    (f : ℕ) (d : Contents)
    → deserialize_transform
        (suc (suc (suc (suc (suc (suc (suc (suc (suc f)))))))))
        (context_object d)
      ≡ ok (context_object d)
unfolding deserialize_transform loop deserialize_body keys has_own get ends_with eq_text
transform-context_object f d = refl

enough :
    (fuel : ℕ) → 9 ≤ fuel → fuel ≡ suc (suc (suc (suc (suc (suc (suc (suc (suc (fuel - 9)))))))))
enough fuel h = omega arith

-- The data that a stub passes to `pb.instantiate(pb.Context, data)`, for a method with a response and
-- for one without.
abbrev pub request_data : Text → ℕ → Value
request_data service_method tid = obj (
    field (codes "service_method") (str service_method)
      (field (codes "packet_type") (num 1) (field (codes "transmission_id") (num tid) end)))

abbrev pub notice_data : Text → Value
notice_data service_method =
    obj (
      field (codes "service_method") (str service_method) (field (codes "packet_type") (num 1) end))

abbrev pub request_contents : Text → ℕ → Contents
request_contents service_method tid = record {
  transmission_id = tid;
  packet_type = 1;
  packet_flags = 0;
  priority = 0;
  service_method = service_method;
  is_cancelled = false;
  is_failed = false;
}

pub request_contents-InRange :
    (service_method : Text) (tid : ℕ)
    → tid < 2 ^ 32
    → IsWellFormed service_method
    → InRange (request_contents service_method tid)
request_contents-InRange service_method tid small well = record {
  transmission_id = small;
  packet_type = omega arith;
  packet_flags = omega arith;
  priority = omega arith;
  service_method = well;
}

transform-request_data :
    (f : ℕ) (s : Text) (tid : ℕ)
    → instantiate_transform
        (suc (suc (suc (suc (suc (suc (suc (suc (suc f)))))))))
        (request_data s tid)
      ≡ ok (request_data s tid)
unfolding instantiate_transform loop instantiate_body is_pbmap keys has_own get ends_with eq_text
transform-request_data f s tid = refl

transform-notice_data :
    (f : ℕ) (s : Text)
    → instantiate_transform (suc (suc (suc (suc (suc (suc (suc (suc (suc f))))))))) (notice_data s)
      ≡ ok (notice_data s)
unfolding instantiate_transform loop instantiate_body is_pbmap keys has_own get ends_with eq_text
transform-notice_data f s = refl

module _ (j : Jspb) (laws : MessageLaws j) where
  open j use {Message, initialize, set_field}
  open laws use {stored, stored-initialize, get_field_lem, get_boolean_lem, set_field_lem}

  abbrev pub request_message : Text → ℕ → Message
  request_message s tid =
      set_field (set_field (set_field initialize 1 (num tid)) 2 (num 1)) 5 (str s)

  abbrev pub notice_message : Text → Message
  notice_message s = set_field (set_field initialize 2 (num 1)) 5 (str s)

  pub instantiate-request_data :
      (fuel : ℕ) (s : Text) (tid : ℕ)
      → 9 ≤ fuel
      → instantiate fuel (context_type j) (request_data s tid) ≡ ok (request_message s tid)
  unfolding instantiate camel convert camel_key put get eq_text from_object
  instantiate-request_data fuel s tid h =
      rw (enough fuel h, transform-request_data (fuel - 9) s tid)

  pub request_message-Holds :
      (s : Text) (tid : ℕ) → Holds j (request_message s tid) (request_contents s tid)
  request_message-Holds s tid = record {
    transmission_id = simp (get_field_lem, set_field_lem);
    packet_type = simp (get_field_lem, set_field_lem);
    packet_flags = simp (get_field_lem, set_field_lem, stored-initialize);
    priority = simp (get_field_lem, set_field_lem, stored-initialize);
    service_method = simp (get_field_lem, set_field_lem);
    is_cancelled = simp (get_boolean_lem, set_field_lem, stored-initialize);
    is_failed = simp (get_boolean_lem, set_field_lem, stored-initialize);
  }

  pub instantiate-notice_data :
      (fuel : ℕ) (s : Text)
      → 9 ≤ fuel
      → instantiate fuel (context_type j) (notice_data s) ≡ ok (notice_message s)
  unfolding instantiate camel convert camel_key put get eq_text from_object
  instantiate-notice_data fuel s h = rw (enough fuel h, transform-notice_data (fuel - 9) s)

  pub notice_message-Holds : (s : Text) → Holds j (notice_message s) (request_contents s 0)
  notice_message-Holds s = record {
    transmission_id = simp (get_field_lem, set_field_lem, stored-initialize);
    packet_type = simp (get_field_lem, set_field_lem);
    packet_flags = simp (get_field_lem, set_field_lem, stored-initialize);
    priority = simp (get_field_lem, set_field_lem, stored-initialize);
    service_method = simp (get_field_lem, set_field_lem);
    is_cancelled = simp (get_boolean_lem, set_field_lem, stored-initialize);
    is_failed = simp (get_boolean_lem, set_field_lem, stored-initialize);
  }

  module _ (wire_laws : WireLaws j) where
    open wire_laws use {Pending}

    -- Bytes with the fields of `d` are deserialized to the plain object of `d`.
    pub deserialize-wire_context :
        (fuel : ℕ) (bytes : Bytes) (d : Contents)
        → 9 ≤ fuel
        → Pending (j.new_reader bytes) (wire d)
        → length (wire d) ≤ length bytes
        → deserialize fuel (context_type j) bytes ≡ ok (context_object d)
    unfolding deserialize
    deserialize-wire_context fuel bytes d h p fits =
        let (m, read, holds) = deserialize_binary-wire j laws wire_laws bytes d p fits in
        rw (
          read,
          to_object-Holds j m d holds,
          underscore-object_of d,
          enough fuel h,
          transform-context_object (fuel - 9) d,
        )

    -- A Context with the contents `d` is serialized, and `pb.deserialize` of the bytes is the plain
    -- object of `d`.
    pub deserialize-serialize_context :
        (fuel : ℕ) (m : Message) (d : Contents)
        → 9 ≤ fuel
        → Holds j m d
        → InRange d
        → (bytes : Bytes) × (serialize (instance_of (context_type j) m) ≡ ok bytes)
          × (deserialize fuel (context_type j) bytes ≡ ok (context_object d))
    unfolding serialize
    deserialize-serialize_context fuel m d h holds range =
        let (bytes, written, p, fits) = serialize_binary-wire j wire_laws m d holds range in
        (bytes, written, deserialize-wire_context fuel bytes d h p fits)
