-- ===== src/Convert/Deserialize.antt =====
-- `transform` of `jspb_deserialize`: `a_list` becomes `a`, and the list `m_map` of entries becomes the
-- object `m`.
use pymaid.Prelude.{
  ℕ, zero, suc, true, false, ◌&&◌, [], ◌∷◌, Text, codes, decimal, ends_with, get_elem?, drop_last,
  if◌then◌else◌, Option, none, some, Result, ok, throw, type_error, unfinished, ◌>>=◌, fmap,
}
use pymaid.Js.{
  Value, undefined, null, bool, num, str, arr, obj, Items, nil, cons, Fields, end, put, get, remove,
  keys, is_array, size_items, item,
}
use pymaid.Js.Indices.{put_any}
use pymaid.Convert.Loop.{loop, map_items}

-- `s[n]`
abbrev pub unit_at : Option ℕ → Value
unit_at none = undefined
unit_at (some c) = str (c ∷ [])

-- `entry[n]`; null and undefined have no elements.
unfoldable pub element : ℕ → Value → Result Value
unfolding item get decimal
element n undefined = throw type_error
element n null = throw type_error
element n (arr xs) = ok (item n xs)
element n (str s) = ok (unit_at (get_elem? s n))
element n (obj o) = ok (get (decimal n) o)
element n _ = ok undefined

-- The property that `o[v]` names, for the keys of protobuf's maps: texts, numbers and Booleans.
unfoldable pub property_key : Value → Text
unfolding decimal
property_key (str s) = s
property_key (num n) = decimal n
property_key (bool true) = codes "true"
property_key (bool false) = codes "false"
property_key null = codes "null"
property_key _ = codes "undefined"

-- The inner loop, over the entries: `obj[arr[idx][0]] = transform(arr[idx][1])`.
unfoldable pub map_object : (Value → Result Value) → Items → Fields → Result Fields
unfolding element property_key put_any
map_object f nil out = ok out
map_object f (cons entry entries) out = do
  k ← element 0 entry
  v ← element 1 entry
  y ← f v
  map_object f entries (put_any (property_key k) y out)

abbrev pub items_of : Value → Items
items_of (arr xs) = xs
items_of _ = nil

-- The body of the loop. The inner loop counts with the same `idx`.
module _ (transform : Value → Result Value) where
  abbrev rename_list : Text → ℕ → Fields → Value → Result (Fields × ℕ)
  rename_list attr idx ins value = do
    items ← transform value
    ok (remove attr (put (drop_last 5 attr) items ins), idx)

  abbrev rename_map : Text → Fields → Items → Result (Fields × ℕ)
  rename_map attr ins entries = do
    o ← map_object transform entries end
    ok (remove attr (put (drop_last 4 attr) (obj o) ins), size_items entries)

  unfoldable pub deserialize_body : Text → ℕ → Fields → Result (Fields × ℕ)
  unfolding get put remove ends_with drop_last map_object
  deserialize_body attr idx ins =
      let value = get attr ins in
      if ends_with attr (codes "_list")
      then rename_list attr idx ins value
      else if ends_with attr (codes "_map") && is_array value
      then rename_map attr ins (items_of value)
      else ok (ins, idx)

-- `fuel` bounds the depth of the calls and the rounds of each loop.
unfoldable pub deserialize_transform : ℕ → Value → Result Value
unfolding loop map_items deserialize_body
deserialize_transform zero ins = unfinished
deserialize_transform (suc fuel) (arr xs) = fmap arr (map_items (deserialize_transform fuel) xs)
deserialize_transform (suc fuel) (obj o) =
    fmap obj (loop (deserialize_body (deserialize_transform fuel)) fuel (keys o) 0 o)
deserialize_transform (suc fuel) ins = ok ins
