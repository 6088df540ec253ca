-- ===== src/Convert/Rounds.antt =====
-- What one round of the loop of `instantiate` does to the weights, the depth and the number of properties.
use pymaid.Prelude.{
  ℕ, ◌-◌, ◌≤◌, ◌<◌, ◌≡◌, refl, ap, ◌⊎◌, inl, inr, ◌++◌, true, false, ◌∷◌, Text, codes, length,
  ends_with, eq_text_append, Ends, Ends->>=, Result, ok, ◌>>=◌, arith, Bool-cases,
}
use pymaid.Js.{
  Value, undefined, null, bool, num, str, arr, obj, Items, nil, cons, Fields, end, field, put, get,
  has_own, remove, keys, is_array, is_true,
}
use pymaid.Js.Objects.{get-put, has_own-put}
use pymaid.Convert.Loop.{map_items}
use pymaid.Convert.Instantiate.{instantiate_body, map_entries}
use pymaid.Convert.Weights.{
  weight, weight_list, weight_arr, weight_of, weight_of-put, weight_of-remove, length-keys-put,
  length-keys-remove, Within, WithinItems, WithinFields, put-WithinFields, remove-WithinFields,
  get-Within,
}

-- A value that `transform` makes of `v` goes no deeper, and is a list where `v` is.
abbrev pub Made : ℕ → ℕ → Value → Value → Type 0
Made w d v v' = Within w d v' × (is_array v ≡ true → is_array v' ≡ true)

module _ (w : ℕ) (transform : Value → Result Value) where
  abbrev pub Tame : ℕ → Type 0
  Tame d = (v : Value) → Within w d v → Ends (Made w d v) (transform v)

  pub map_items-Ends :
      (d : ℕ) (xs : Items)
      → Tame (d - 1)
      → WithinItems w d xs
      → Ends (WithinItems w d) (map_items transform xs)
  unfolding map_items Within
  map_items-Ends d nil tame h = tt
  map_items-Ends d (cons x xs) tame h =
      Ends->>= (Made w (d - 1) x) (WithinItems w d) (transform x) _ (tame x h.0) λ y made.
        Ends->>= (WithinItems w d) (WithinItems w d) (map_items transform xs) _
          (map_items-Ends d xs tame h.1) λ ys rest. (made.0, rest)

  -- The entries of a map that lies within `d`, as a list of pairs within `d`.
  map_entries-Ends :
      (d : ℕ) (o : Fields)
      → 2 ≤ d
      → Tame (d - 2)
      → WithinFields w d o
      → Ends (WithinItems w d) (map_entries transform o)
  unfolding map_entries Within
  map_entries-Ends d end deep tame h = tt
  map_entries-Ends d (field k v o) deep tame h =
      Ends->>= (Made w (d - 2) v) (WithinItems w d) (transform v) _ (tame v h.0) λ y made.
        Ends->>= (WithinItems w d) (WithinItems w d) (map_entries transform o) _
          (map_entries-Ends d o deep tame h.1)
          λ ys rest.
            let one_less : d - 1 - 1 ≡ d - 2 = omega arith in
            ((omega arith, (tt, (rw one_less made.0, tt))), rest)

  module _ (d : ℕ) where
    -- The object that a round leaves behind, and how it gets on: a renamed property weighs less.
    abbrev pub Left : ℕ → Fields → Fields × ℕ → Type 0
    Left idx ins next =
        WithinFields w d next.0
        × (length (keys next.0) ≤ w)
        × ((weight_of next.0 < weight_of ins)
            ⊎ ((weight_of next.0 ≤ weight_of ins) × (next.1 ≡ idx)))

    renamed :
        (attr suffix : Text) (c : ℕ) (v : Value) (idx n : ℕ) (ins : Fields)
        → has_own attr ins ≡ true
        → Within w (d - 2) v
        → weight (attr ++ c ∷ suffix) v < weight attr (get attr ins)
        → WithinFields w d ins
        → length (keys ins) ≤ w
        → Left idx ins (remove attr (put (attr ++ c ∷ suffix) v ins), n)
    renamed attr suffix c v idx n ins own h less hs size =
        let k = attr ++ c ∷ suffix in
        let other = eq_text_append attr c suffix in
        let same : get attr (put k v ins) ≡ get attr ins = rw (get-put k attr v ins, other) refl in
        let still : has_own attr (put k v ins) ≡ true = rw (has_own-put k attr v ins, other) own in
        let bigger = weight_of-put k v ins in
        let taken = weight_of-remove attr (put k v ins) still in
        let weighs : weight attr (get attr (put k v ins)) ≡ weight attr (get attr ins) =
          ap (weight attr) same in
        let one_more = length-keys-put k v ins in
        let one_less = length-keys-remove attr (put k v ins) still in
        (
          remove-WithinFields w d attr (put k v ins) (put-WithinFields w d k v ins h hs),
          omega arith,
          inl (omega arith),
        )

    kept :
        (idx : ℕ) (ins : Fields)
        → WithinFields w d ins
        → length (keys ins) ≤ w
        → Left idx ins (ins, idx)
    kept idx ins hs size = (hs, size, inr (omega arith, refl))

    list-Ends :
        (attr : Text) (idx : ℕ) (ins : Fields) (xs : Items)
        → Tame (d - 2)
        → has_own attr ins ≡ true
        → get attr ins ≡ arr xs
        → ends_with attr (codes "_list") ≡ false
        → Within w (d - 2) (arr xs)
        → WithinFields w d ins
        → length (keys ins) ≤ w
        → Ends (Left idx ins) (
            transform (arr xs) >>= λ items.
            ok (remove attr (put (attr ++ codes "_list") items ins), idx))
    unfolding weight
    list-Ends attr idx ins xs tame own e unmarked h hs size =
        Ends->>= (Made w (d - 2) (arr xs)) (Left idx ins) (transform (arr xs)) _ (tame (arr xs) h)
          λ y made.
            let weighs : weight attr (get attr ins) ≡ 1 = rw (e, weight, unmarked) refl in
            let light = weight_list attr y (made.1 refl) in
            renamed attr (codes "list") b'_' y idx idx ins own made.0 (omega arith) hs size

    map-Ends :
        (attr : Text) (idx : ℕ) (ins o : Fields)
        → Tame (d - 2 - 2)
        → has_own attr ins ≡ true
        → get attr ins ≡ obj o
        → is_true (get (codes "pbmap") o) ≡ true
        → Within w (d - 2) (obj o)
        → WithinFields w d ins
        → length (keys ins) ≤ w
        → let entries = remove (codes "pbmap") o in
          Ends (Left idx ins) (
            map_entries transform entries >>= λ items.
            ok (remove attr (put (attr ++ codes "_map") (arr items) ins), length (keys entries)))
    unfolding Within weight
    map-Ends attr idx ins o tame own e marked h hs size =
        let entries = remove (codes "pbmap") o in
        Ends->>= (WithinItems w (d - 2)) (Left idx ins) (map_entries transform entries) _
          (map_entries-Ends (d - 2) entries h.0 tame
            (remove-WithinFields w (d - 2) (codes "pbmap") o h.2))
          λ items made.
            let weighs : weight attr (get attr ins) ≡ 2 = rw (e, weight, marked) refl in
            let light = weight_arr (attr ++ codes "_map") items in
            renamed attr (codes "map") b'_' (arr items) idx (length (keys entries)) ins own
              (omega arith, made) (omega arith) hs size

    pub body-Ends :
        (attr : Text) (idx : ℕ) (ins : Fields)
        → ((e : ℕ) → e ≤ d - 2 → Tame e)
        → has_own attr ins ≡ true
        → WithinFields w d ins
        → length (keys ins) ≤ w
        → Ends (Left idx ins) (instantiate_body transform attr idx ins)
    unfolding instantiate_body
    body-Ends attr idx ins tame own hs size =
        by_value (get attr ins) refl (get-Within w d attr ins hs)
      where
        by_value :
            (v : Value)
            → get attr ins ≡ v
            → Within w (d - 2) v
            → Ends (Left idx ins) (instantiate_body transform attr idx ins)
        by_value undefined e h = rw e tt
        by_value null e h = rw e tt
        by_value (bool b) e h = rw e (kept idx ins hs size)
        by_value (num n) e h = rw e (kept idx ins hs size)
        by_value (str s) e h = rw e (kept idx ins hs size)
        by_value (arr xs) e h = elim (Bool-cases (ends_with attr (codes "_list"))) [
          | inl marked ↦ rw (e, marked) (kept idx ins hs size)
          | inr unmarked ↦
              rw (e, unmarked)
                (list-Ends attr idx ins xs (tame (d - 2) (omega arith)) own e unmarked h hs size)
        ]
        by_value (obj o) e h = elim (Bool-cases (is_true (get (codes "pbmap") o))) [
          | inl marked ↦
              rw (e, marked)
                (map-Ends attr idx ins o (tame (d - 2 - 2) (omega arith)) own e marked h hs size)
          | inr unmarked ↦ rw (e, unmarked) (kept idx ins hs size)
        ]
