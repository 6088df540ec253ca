-- ===== src/Convert/Skipped.antt =====
-- What the loop variable that the two loops of `transform` share does to the properties behind a map.
use pymaid.Prelude.{
  zero, Bool-cases, inl, inr, ℕ, suc, ◌+◌, ◌≡◌, ◌≤◌, refl, sym, ◌∙◌, ap, ◌++◌, ◌∷◌, [], true, false,
  Text, codes, List, get_elem?, length, ends_with, eq_text, eq_text_iff, eq_text_refl,
  ends_with-append, eq_text_append, drop_last, take, drop, take-append, length-append, some, none,
  Result, ok, arith, ◌-◌,
}
use pymaid.Js.{
  Value, Items, cons, Fields, end, field, arr, obj, put, get, has_own, remove, keys, size_items,
}
use pymaid.Convert.Loop.{loop}
use pymaid.Convert.Deserialize.{deserialize_body, deserialize_transform, map_object}

pub get_elem?_behind : {A : Type 0} (xs : List A) (n : ℕ) → length xs ≤ n → get_elem? xs n ≡ none
get_elem?_behind [] n h = refl
get_elem?_behind (x ∷ xs) zero h = ground arith
get_elem?_behind (x ∷ xs) (suc n) h = get_elem?_behind xs n (omega arith)

last : Text → ℕ
last [] = 0
last (c ∷ []) = c
last (c ∷ d ∷ s) = last (d ∷ s)

last-append : (s : Text) (c : ℕ) (t : Text) → last (s ++ c ∷ t) ≡ last (c ∷ t)
unfolding last
last-append [] c t = refl
last-append (b ∷ []) c t = refl
last-append (b ∷ d ∷ s) c t = last-append (d ∷ s) c t

take-drop : (n : ℕ) (s : Text) → take n s ++ drop n s ≡ s
take-drop zero s = refl
take-drop (suc n) [] = refl
take-drop (suc n) (c ∷ s) = ap (◌∷◌ c) (take-drop n s)

map_ne_list : (m : Text) → ends_with (m ++ codes "_map") (codes "_list") ≡ false
unfolding ends_with last
map_ne_list m = elim (Bool-cases (ends_with s (codes "_list"))) [
  | inl e ↦ absurd (clash e)
  | inr e ↦ e
]
  where
    s : Text
    s = m ++ codes "_map"

    n : ℕ
    n = length s - 5

    clash : ends_with s (codes "_list") ≡ true → ⊥
    clash e =
        let tail : drop n s ≡ codes "_list" = (eq_text_iff (drop n s) (codes "_list")).0 e in
        let whole : s ≡ take n s ++ codes "_list" = rw (← tail) (sym (take-drop n s)) in
        let ends : last s ≡ last (codes "_list") =
          ap last whole ∙ last-append (take n s) b'_' (codes "list") in
        let ends' : last s ≡ last (codes "_map") = last-append m b'_' (codes "map") in omega arith

drop_last-append : (s : Text) → drop_last 4 (s ++ codes "_map") ≡ s
unfolding drop_last
drop_last-append s =
    let shorter : length (s ++ codes "_map") - 4 ≡ length s =
      omega (arith, length-append {0} s (codes "_map")) in
    rw shorter (take-append s (codes "_map"))

-- One round of a loop: a property that is there is visited, and behind the last the loop ends.
module _ (body : Text → ℕ → Fields → Result (Fields × ℕ)) (fuel : ℕ) (attrs : List Text)
    (idx : ℕ) where
  loop-visit :
      (attr : Text) (ins : Fields) (next : Fields × ℕ)
      → get_elem? attrs idx ≡ some attr
      → has_own attr ins ≡ true
      → body attr idx ins ≡ ok next
      → loop body (suc fuel) attrs idx ins ≡ loop body fuel attrs (next.1 + 1) next.0
  unfolding loop
  loop-visit attr ins next e own h = rw (loop, e, own, h) refl

  loop-none :
      (ins : Fields) → get_elem? attrs idx ≡ none → loop body (suc fuel) attrs idx ins ≡ ok ins
  unfolding loop
  loop-none ins e = rw (loop, e) refl

module _ (transform : Value → Result Value) (m l : Text) (entry : Value) (entries xs : Items)
    (o : Fields) (apart : eq_text (l ++ codes "_list") m ≡ false)
    (done : map_object transform (cons entry entries) end ≡ ok o) where
  abbrev before : Fields
  before =
      field (m ++ codes "_map") (arr (cons entry entries)) (field (l ++ codes "_list") (arr xs) end)

  abbrev after : Fields
  after = field (l ++ codes "_list") (arr xs) (field m (obj o) end)

  map_renamed :
      deserialize_body transform (m ++ codes "_map") 0 before ≡ ok (after, suc (size_items entries))
  unfolding deserialize_body put get remove size_items
  map_renamed =
      let own = eq_text_refl (m ++ codes "_map") in
      let other = eq_text_append m b'_' (codes "map") in
      rw (map_ne_list m, ends_with-append m (codes "_map"), own)
        (rw (done, drop_last-append m, other, apart, own) refl)

  list_skipped :
      (fuel : ℕ)
      → loop (deserialize_body transform) (suc (suc fuel)) (keys before) 0 before ≡ ok after
  unfolding has_own keys
  list_skipped fuel =
      let own : has_own (m ++ codes "_map") before ≡ true = rw (eq_text_refl (m ++ codes "_map")) in
      loop-visit (deserialize_body transform) (suc fuel) (keys before) 0 (m ++ codes "_map") before
        (after, suc (size_items entries)) refl own map_renamed
      ∙ loop-none (deserialize_body transform) fuel (keys before) (suc (size_items entries) + 1)
          after (get_elem?_behind (keys before) _ (omega arith))

-- Of an object of two properties, the first a map with entries that are converted, the second a list with
-- another name than the map, `deserialize` renames the map, and goes on behind the second property: the
-- list keeps the name of the wire, and its elements are not converted.
pub deserialize_skips :
    (fuel : ℕ) (m l : Text) (entry : Value) (entries xs : Items) (o : Fields)
    → eq_text (l ++ codes "_list") m ≡ false
    → map_object (deserialize_transform (suc (suc fuel))) (cons entry entries) end ≡ ok o
    → deserialize_transform (suc (suc (suc fuel))) (
        obj (
          field
            (m ++ codes "_map")
            (arr (cons entry entries))
            (field (l ++ codes "_list") (arr xs) end)))
      ≡ ok (obj (field (l ++ codes "_list") (arr xs) (field m (obj o) end)))
unfolding deserialize_transform
deserialize_skips fuel m l entry entries xs o apart done =
    rw
      (list_skipped (deserialize_transform (suc (suc fuel))) m l entry entries xs o apart done fuel)
      refl
