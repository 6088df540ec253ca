-- ===== src/Tests/Texts.antt =====
-- Names, packets and messages.
use pymaid.Prelude.{
  decimal, fmap, Bytes, ◌<◌, ◌≤◌, ◌^◌, ◌+◌, All, Ends, true, refl, ◌≡◌, [], ◌∷◌, codes, ok, length,
  arith, eq_text,
}
use pymaid.Js.{null, bool, is_array, pair, item, Value, num, str, obj, field, end}
use pymaid.Js.Indices.{put_any, put_index, index_of, read_digits}
use pymaid.Convert.Instantiate.{instantiate_transform}
use pymaid.Convert.Deserialize.{deserialize_transform, map_object, element, property_key}
use pymaid.Js.{null, put, Fields, keys, get, arr, cons, nil}
use pymaid.Convert.Weights.{Within}
use pymaid.Convert.Ending.{instantiate_transform-Ends}
use pymaid.Convert.Skipped.{deserialize_skips}
use pymaid.Convert.Passes.{each_property, list_pass, instantiate_transform-each_property}
use pymaid.Parser.Bounds.{IsByte, pack_bounds, unpack_bounds}
use pymaid.Parser.Buffer.{slice, get_uint16}
use pymaid.Parser.{Packet, pack, unpack}
use pymaid.Parser.RoundTrip.{unpack-pack, unpack-pack_small}

abbrev camel_object : Value
camel_object = obj (field (codes "transmissionId") (num 7) (field (codes "isFailed") (str []) end))

abbrev snake_object : Value
snake_object =
    obj (field (codes "transmission_id") (num 7) (field (codes "is_failed") (str []) end))

unpack-pack_example :
    unpack (λ b. ok (num (length b))) (pack (1 ∷ 2 ∷ []) (3 ∷ []))
    ≡ ok (record { context = num 2; content = 3 ∷ [] })
unpack-pack_example = unpack-pack (λ b. ok (num (length b))) (1 ∷ 2 ∷ []) (3 ∷ []) (omega arith)

unpack-pack_small_example :
    unpack (λ b. ok (num (length b))) (pack (1 ∷ 2 ∷ []) (3 ∷ []))
    ≡ ok (record { context = num 2; content = 3 ∷ [] })
unpack-pack_small_example =
    unpack-pack_small (λ b. ok (num (length b))) (1 ∷ 2 ∷ []) (3 ∷ []) (omega arith) (omega arith)

-- An object with a list and a marked map with one entry.
abbrev marked : Value
marked = obj (
    field (codes "n") (arr (cons (num 1) nil)) (
      field (codes "m") (obj (field (codes "pbmap") (bool true) (field (codes "k") (num 2) end)))
        end))

instantiate_transform-Ends_example :
    Ends
      (λ v. Within 3 6 v × (is_array marked ≡ true → is_array v ≡ true))
      (instantiate_transform 40 marked)
unfolding Within keys
instantiate_transform-Ends_example =
    instantiate_transform-Ends 3 40 6 marked
      (
        omega arith,
        omega arith,
        ((omega arith, (tt, tt)), ((omega arith, omega arith, (tt, (tt, tt))), tt)),
      )
      (omega arith)

-- The entry of a map, and a list behind the map.
deserialize_skips_example :
    deserialize_transform 8 (
      obj (
        field
          (codes "m_map")
          (arr (cons (pair (str (codes "k")) (num 2)) nil))
          (field (codes "n_list") (arr nil) end)))
    ≡ ok (
        obj (
          field
            (codes "n_list")
            (arr nil)
            (field (codes "m") (obj (field (codes "k") (num 2) end)) end)))
unfolding eq_text map_object element item property_key deserialize_transform put_any index_of
    read_digits
deserialize_skips_example =
    deserialize_skips 5 (codes "m") (codes "n") (pair (str (codes "k")) (num 2)) nil nil
      (field (codes "k") (num 2) end) refl refl

-- Numbers as the keys of a map: the object lists them in their order.
keys_in_order :
    map_object
      (deserialize_transform 2)
      (cons
        (pair (num 10) null)
        (cons (pair (num 2) null) (cons (pair (str (codes "a")) null) nil)))
      end
    ≡ ok (field (codes "2") null (field (codes "10") null (field (codes "a") null end)))
unfolding eq_text map_object element item property_key deserialize_transform put_any put_index
    index_of read_digits put decimal
keys_in_order = refl

pack_bounds_example : All IsByte (pack (1 ∷ []) (2 ∷ [])) × (length (pack (1 ∷ []) (2 ∷ [])) ≡ 6)
pack_bounds_example = pack_bounds (1 ∷ []) (2 ∷ []) (omega arith, tt) (omega arith, tt)

abbrev packet : Bytes
packet = 0 ∷ 1 ∷ 0 ∷ 1 ∷ 8 ∷ 9 ∷ []

abbrev unpacked : Packet
unpacked = record { context = num 1; content = 9 ∷ [] }

unpack_bounds_example :
    (length unpacked.content < 2 ^ 16) × (length unpacked.content + 4 ≤ length packet)
unfolding unpack slice get_uint16
unpack_bounds_example =
    unpack_bounds (λ b. ok (num (length b))) packet unpacked
      (omega arith, (omega arith, (omega arith, (omega arith, (omega arith, (omega arith, tt))))))
      refl

-- A list among other properties.
abbrev listed : Fields
listed =
    field (codes "xs") (arr (cons (num 2) nil))
      (field (codes "n") (num 1) (field (codes "o") (obj (field (codes "k") null end)) end))

instantiate_transform-each_property_example :
    instantiate_transform 5 (obj listed)
    ≡ fmap obj (each_property (list_pass (instantiate_transform 4)) (keys listed) listed)
unfolding keys get eq_text
instantiate_transform-each_property_example =
    instantiate_transform-each_property 4 listed (refl, (refl, (refl, tt))) (omega arith)
