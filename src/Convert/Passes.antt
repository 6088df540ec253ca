-- ===== src/Convert/Passes.antt =====
-- Data without marked maps: `instantiate` is one pass over the properties.
use pymaid.Prelude.{
  ℕ, zero, suc, ◌+◌, ◌<◌, ◌≡◌, ap, refl, ◌++◌, ◌&&◌, not, Bool, true, false, List, [], ◌∷◌, Text,
  codes, length, length-append, append-nil, append_assoc, get_elem?, some, ends_with, eq_text,
  if◌then◌else◌, Result, ok, throw, unfinished, ◌>>=◌, fmap, arith, Bool-cases, if_cases, inl, inr,
}
use pymaid.Js.{
  Value, undefined, null, bool, num, str, arr, obj, Items, Fields, end, field, put, get, has_own,
  remove, keys, is_array, is_true,
}
use pymaid.Convert.Loop.{loop, map_items}
use pymaid.Convert.Instantiate.{instantiate_body, instantiate_transform, is_pbmap}
use pymaid.Convert.Skipped.{get_elem?_behind}

-- What the call returns, if it returns, has the property.
abbrev pub IfOk {ℓ} : {A : Type ℓ} → (A → Type 0) → Result A → Type 0
IfOk P (ok a) = P a
IfOk P _ = Unit

-- Each property that is there when its turn comes is passed once, in the order of the names.
unfoldable pub each_property : (Text → Fields → Result Fields) → List Text → Fields → Result Fields
unfolding has_own
each_property pass [] ins = ok ins
each_property pass (attr ∷ attrs) ins =
    (if has_own attr ins then pass attr ins else ok ins) >>= each_property pass attrs

get_elem?_next :
    {A : Type 0} (before : List A) (a : A) (rest : List A)
    → get_elem? (before ++ a ∷ rest) (length before) ≡ some a
get_elem?_next [] a rest = refl
get_elem?_next (b ∷ before) a rest = get_elem?_next before a rest

-- A body that leaves the index as it is makes the loop such a pass.
module _ (body : Text → ℕ → Fields → Result (Fields × ℕ)) (pass : Text → Fields → Result Fields)
    (Inv : Fields → Type 0)
    (passes : (attr : Text) (idx : ℕ) (ins : Fields)
      → Inv ins
      → body attr idx ins ≡ (pass attr ins >>= λ o. ok (o, idx)))
    (keeps : (attr : Text) (ins : Fields) → Inv ins → IfOk Inv (pass attr ins)) where
  goes_on :
      (n : ℕ) (visit : Fields × ℕ → Result Fields) (rest : Fields → Result Fields)
      → ((o : Fields) → Inv o → visit (o, n) ≡ rest o)
      → (r : Result Fields) → IfOk Inv r
      → ((r >>= λ o. ok (o, n)) >>= visit) ≡ (r >>= rest)
  goes_on n visit rest next (ok o) inv = next o inv
  goes_on n visit rest next (throw e) inv = refl
  goes_on n visit rest next unfinished inv = refl

  pub loop-each :
      (rest before : List Text) (fuel : ℕ) (ins : Fields)
      → Inv ins
      → length rest < fuel
      → loop body fuel (before ++ rest) (length before) ins ≡ each_property pass rest ins
  unfolding loop each_property
  loop-each rest before zero ins inv enough = absurd (omega arith)
  loop-each [] before (suc fuel) ins inv enough =
      rw (loop, append-nil before, get_elem?_behind before (length before) (omega arith)) refl
  loop-each (attr ∷ rest) before (suc fuel) ins inv enough =
      let next : (o : Fields)
          → Inv o
          → loop body fuel (before ++ attr ∷ rest) (length before + 1) o
            ≡ each_property pass rest o =
        λ o inv'.
          let longer = length-append {0} before (attr ∷ []) in
          rw (← longer, ← append_assoc before (attr ∷ []) rest)
            (loop-each rest (before ++ attr ∷ []) fuel o inv' (omega arith)) in
      elim (Bool-cases (has_own attr ins)) [
        | inl own ↦
            rw (loop, get_elem?_next before attr rest, own, passes attr (length before) ins inv)
              (goes_on (length before) _ _ next (pass attr ins) (keeps attr ins inv))
        | inr other ↦ rw (loop, get_elem?_next before attr rest, other) (next ins inv)
      ]

-- An object that is marked as a map.
abbrev pub is_marked : Value → Bool
is_marked (obj o) = is_true (get (codes "pbmap") o)
is_marked _ = false

abbrev pub HasNoMaps : Fields → Type 0
HasNoMaps end = Unit
HasNoMaps (field k v o) = (is_marked v ≡ false) × HasNoMaps o

get-HasNoMaps : (k : Text) (o : Fields) → HasNoMaps o → is_marked (get k o) ≡ false
unfolding get
get-HasNoMaps k end h = refl
get-HasNoMaps k (field j v o) h = elim (Bool-cases (eq_text j k)) [
  | inl e ↦ rw e h.0
  | inr e ↦ rw e (get-HasNoMaps k o h.1)
]

put-HasNoMaps :
    (k : Text) (v : Value) (o : Fields) → is_marked v ≡ false → HasNoMaps o → HasNoMaps (put k v o)
unfolding put
put-HasNoMaps k v end h hs = (h, tt)
put-HasNoMaps k v (field j w o) h hs = elim (Bool-cases (eq_text j k)) [
  | inl e ↦ rw e (h, hs.1)
  | inr e ↦ rw e (hs.0, put-HasNoMaps k v o h hs.1)
]

remove-HasNoMaps : (k : Text) (o : Fields) → HasNoMaps o → HasNoMaps (remove k o)
unfolding remove
remove-HasNoMaps k end hs = tt
remove-HasNoMaps k (field j w o) hs = elim (Bool-cases (eq_text j k)) [
  | inl e ↦ rw e (hs.1)
  | inr e ↦ rw e (hs.0, remove-HasNoMaps k o hs.1)
]

module _ (transform : Value → Result Value) where
  -- A list moves to the end of the object, under its name with `_list`; null and undefined throw.
  abbrev pub list_renamed : Text → Fields → Result Fields
  list_renamed attr ins =
      transform (get attr ins) >>= λ items. ok (remove attr (put (attr ++ codes "_list") items ins))

  unfoldable pub list_pass : Text → Fields → Result Fields
  list_pass attr ins =
      if is_array (get attr ins) && not (ends_with attr (codes "_list"))
      then list_renamed attr ins
      else is_pbmap (get attr ins) >>= λ marked. ok ins

  -- A list is no marked map.
  unmarked : (v : Value) → is_array v ≡ true → is_marked v ≡ false
  unmarked (arr xs) h = refl
  unmarked undefined h = refl
  unmarked null h = refl
  unmarked (bool b) h = refl
  unmarked (num n) h = refl
  unmarked (str s) h = refl
  unmarked (obj o) h = ground arith

  list_pass-HasNoMaps :
      ((v : Value) → is_array v ≡ true → IfOk (λ v'. is_array v' ≡ true) (transform v))
      → (attr : Text) (ins : Fields) → HasNoMaps ins
      → IfOk HasNoMaps (list_pass attr ins)
  unfolding list_pass
  list_pass-HasNoMaps lists attr ins h =
      if_cases (IfOk HasNoMaps) (is_array (get attr ins) && not (ends_with attr (codes "_list"))) _
        _ (λ e. renamed (transform (get attr ins)) (lists (get attr ins) (ground arith)))
        (λ e. tested (is_pbmap (get attr ins)))
    where
      renamed :
          (r : Result Value)
          → IfOk (λ v'. is_array v' ≡ true) r
          → IfOk HasNoMaps (r >>= λ items. ok (remove attr (put (attr ++ codes "_list") items ins)))
      renamed (ok items) is_list =
          remove-HasNoMaps attr _
            (put-HasNoMaps (attr ++ codes "_list") items ins (unmarked items is_list) h)
      renamed (throw e) is_list = tt
      renamed unfinished is_list = tt

      tested : (r : Result Bool) → IfOk HasNoMaps (r >>= λ marked. ok ins)
      tested (ok b) = h
      tested (throw e) = tt
      tested unfinished = tt

  carry :
      (idx : ℕ) (f : Value → Fields) (r : Result Value)
      → let visited : Value → Result (Fields × ℕ) = λ v. ok (f v, idx) in
        (r >>= visited) ≡ ((r >>= λ v. ok (f v)) >>= λ o. ok (o, idx))
  carry idx f (ok v) = refl
  carry idx f (throw e) = refl
  carry idx f unfinished = refl

  tested_unmarked :
      (idx : ℕ) (ins : Fields) (next : Bool → Result (Fields × ℕ)) (v : Value)
      → next false ≡ ok (ins, idx)
      → is_marked v ≡ false
      → (is_pbmap v >>= next) ≡ ((is_pbmap v >>= λ marked. ok ins) >>= λ o. ok (o, idx))
  unfolding is_pbmap
  tested_unmarked idx ins next undefined e h = refl
  tested_unmarked idx ins next null e h = refl
  tested_unmarked idx ins next (bool b) e h = e
  tested_unmarked idx ins next (num n) e h = e
  tested_unmarked idx ins next (str s) e h = e
  tested_unmarked idx ins next (arr xs) e h = e
  tested_unmarked idx ins next (obj o) e h = rw h e

  instantiate_body-pass :
      (attr : Text) (idx : ℕ) (ins : Fields)
      → HasNoMaps ins
      → instantiate_body transform attr idx ins ≡ (list_pass attr ins >>= λ o. ok (o, idx))
  unfolding instantiate_body list_pass
  instantiate_body-pass attr idx ins h =
      elim (Bool-cases (is_array (get attr ins) && not (ends_with attr (codes "_list")))) [
        | inl e ↦ rw e (
            carry idx (λ items. remove attr (put (attr ++ codes "_list") items ins))
              (transform (get attr ins)))
        | inr e ↦ rw e (tested_unmarked idx ins _ (get attr ins) refl (get-HasNoMaps attr ins h))
      ]

-- What `transform` makes of a list is a list.
transform_lists :
    (fuel : ℕ) (v : Value)
    → is_array v ≡ true
    → IfOk (λ v'. is_array v' ≡ true) (instantiate_transform fuel v)
unfolding instantiate_transform
transform_lists zero v h = tt
transform_lists (suc fuel) (arr xs) h = mapped (map_items (instantiate_transform fuel) xs)
  where
    mapped : (r : Result Items) → IfOk (λ v'. is_array v' ≡ true) (fmap arr r)
    mapped (ok ys) = refl
    mapped (throw e) = tt
    mapped unfinished = tt
transform_lists (suc fuel) undefined h = h
transform_lists (suc fuel) null h = h
transform_lists (suc fuel) (bool b) h = h
transform_lists (suc fuel) (num n) h = h
transform_lists (suc fuel) (str s) h = h
transform_lists (suc fuel) (obj o) h = absurd (ground arith)

-- An object none of whose own properties is a marked map: the loop of `jspb_instantiate`, whose index its
-- inner loop shares, is one pass over the properties in their order, which gives each list its name with
-- `_list`, and throws at a property that is null or undefined.
pub instantiate_transform-each_property :
    (fuel : ℕ) (o : Fields)
    → HasNoMaps o
    → length (keys o) < fuel
    → instantiate_transform (suc fuel) (obj o)
      ≡ fmap obj (each_property (list_pass (instantiate_transform fuel)) (keys o) o)
unfolding instantiate_transform
instantiate_transform-each_property fuel o no_maps enough = ap (fmap obj) (
    loop-each (instantiate_body (instantiate_transform fuel))
      (list_pass (instantiate_transform fuel)) HasNoMaps
      (instantiate_body-pass (instantiate_transform fuel))
      (list_pass-HasNoMaps (instantiate_transform fuel) (transform_lists fuel)) (keys o) [] fuel o
      no_maps enough)
