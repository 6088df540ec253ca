-- ===== src/Convert/Instantiate.antt =====
-- `transform` of `jspb_instantiate`: a repeated field `a` becomes `a_list`, and a map `m`, an object
-- marked by `pbmap: true`, becomes the list `m_map` of its entries.
use pymaid.Prelude.{
  ℕ, zero, suc, ◌++◌, Bool, true, false, not, ◌&&◌, Text, codes, length, ends_with, if◌then◌else◌,
  Result, ok, throw, type_error, unfinished, ◌>>=◌, fmap,
}
use pymaid.Js.{
  Value, undefined, null, str, arr, obj, Items, nil, cons, Fields, end, field, put, get, remove,
  keys, is_array, is_true, pair,
}
use pymaid.Convert.Loop.{loop, map_items}

-- `value.pbmap === true`; null and undefined have no properties.
unfoldable pub is_pbmap : Value → Result Bool
unfolding get
is_pbmap undefined = throw type_error
is_pbmap null = throw type_error
is_pbmap (obj o) = ok (is_true (get (codes "pbmap") o))
is_pbmap _ = ok false

-- The properties of the marked object, without the mark.
abbrev pub entries_of : Value → Fields
entries_of (obj o) = remove (codes "pbmap") o
entries_of _ = end

-- The inner loop, over the entries: `arr.push([ks[idx], transform(value[ks[idx]])])`.
unfoldable pub map_entries : (Value → Result Value) → Fields → Result Items
map_entries f end = ok nil
map_entries f (field k v o) = do y ← f v; ys ← map_entries f o; ok (cons (pair (str k) y) ys)

-- The body of the loop. The inner loop counts with the same `idx`, and leaves it at the number of
-- entries.
module _ (transform : Value → Result Value) where
  abbrev rename_list : Text → ℕ → Fields → Value → Result (Fields × ℕ)
  rename_list attr idx ins value = do
    items ← transform value
    ok (remove attr (put (attr ++ codes "_list") items ins), idx)

  abbrev rename_map : Text → Fields → Fields → Result (Fields × ℕ)
  rename_map attr ins entries = do
    items ← map_entries transform entries
    ok (remove attr (put (attr ++ codes "_map") (arr items) ins), length (keys entries))

  abbrev if_pbmap : Text → ℕ → Fields → Value → Bool → Result (Fields × ℕ)
  if_pbmap attr idx ins value true = rename_map attr ins (entries_of value)
  if_pbmap attr idx ins value false = ok (ins, idx)

  unfoldable pub instantiate_body : Text → ℕ → Fields → Result (Fields × ℕ)
  unfolding is_pbmap get put remove keys ends_with map_entries
  instantiate_body attr idx ins =
      let value = get attr ins in
      if is_array value && not (ends_with attr (codes "_list"))
      then rename_list attr idx ins value
      else is_pbmap value >>= if_pbmap attr idx ins value

-- `fuel` bounds the depth of the calls and the rounds of each loop.
unfoldable pub instantiate_transform : ℕ → Value → Result Value
unfolding loop map_items instantiate_body
instantiate_transform zero ins = unfinished
instantiate_transform (suc fuel) (arr xs) = fmap arr (map_items (instantiate_transform fuel) xs)
instantiate_transform (suc fuel) (obj o) =
    fmap obj (loop (instantiate_body (instantiate_transform fuel)) fuel (keys o) 0 o)
instantiate_transform (suc fuel) ins = ok ins
