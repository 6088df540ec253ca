-- ===== src/Convert/Weights.antt =====
-- What the loop of `instantiate` works off: the lists and the marked maps among the properties.
use pymaid.Prelude.{
  ℕ, ◌+◌, ◌-◌, ◌*◌, ◌≤◌, ◌≡◌, true, Text, codes, length, eq_text, eq_text_iff, ends_with,
  if◌then◌else◌, arith, Bool-cases, inl, inr, ends_with-append, refl, ◌++◌,
}
use pymaid.Js.{
  Value, undefined, null, bool, num, str, is_array, arr, obj, Items, nil, cons, Fields, end, field,
  put, get, has_own, remove, keys, is_true,
}

unfoldable pub weight : Text → Value → ℕ
unfolding get ends_with
weight k (arr xs) = if ends_with k (codes "_list") then 0 else 1
weight k (obj o) = if is_true (get (codes "pbmap") o) then 2 else 0
weight k _ = 0

unfoldable pub weight_of : Fields → ℕ
weight_of end = 0
weight_of (field k v o) = weight k v + weight_of o

weight-le : (k : Text) (v : Value) → weight k v ≤ 2
unfolding weight
weight-le k (arr xs) = ground arith
weight-le k (obj o) = ground arith
weight-le k _ = omega arith

pub weight_of-le : (o : Fields) → weight_of o ≤ 2 * length (keys o)
unfolding weight_of keys
weight_of-le end = omega arith
weight_of-le (field k v o) = omega (arith, weight-le k v, weight_of-le o)

pub weight_of-put :
    (k : Text) (v : Value) (o : Fields) → weight_of (put k v o) ≤ weight_of o + weight k v
unfolding weight_of put
weight_of-put k v end = omega arith
weight_of-put k v (field j w o) = elim (Bool-cases (eq_text j k)) [
  | inl e ↦ let same : j ≡ k = (eq_text_iff j k).0 e in rw (e, same) (omega arith)
  | inr e ↦ rw e (omega (arith, weight_of-put k v o))
]

pub weight_of-remove :
    (k : Text) (o : Fields)
    → has_own k o ≡ true
    → weight_of (remove k o) + weight k (get k o) ≡ weight_of o
unfolding weight_of remove get has_own
weight_of-remove k end h = ground arith
weight_of-remove k (field j w o) h = elim (Bool-cases (eq_text j k)) [
  | inl e ↦ let same : j ≡ k = (eq_text_iff j k).0 e in rw (e, same) (omega arith)
  | inr e ↦ rw e (omega (arith, weight_of-remove k o (ground arith)))
]

pub length-keys-put :
    (k : Text) (v : Value) (o : Fields) → length (keys (put k v o)) ≤ length (keys o) + 1
unfolding keys put
length-keys-put k v end = omega arith
length-keys-put k v (field j w o) = ground (arith, length-keys-put k v o)

pub length-keys-remove :
    (k : Text) (o : Fields) → has_own k o ≡ true → length (keys (remove k o)) + 1 ≡ length (keys o)
unfolding keys remove has_own
length-keys-remove k end h = ground arith
length-keys-remove k (field j w o) h = ground (arith, length-keys-remove k o)

pub weight_list :
    (attr : Text) (v : Value) → is_array v ≡ true → weight (attr ++ codes "_list") v ≡ 0
unfolding weight
weight_list attr (arr xs) h = rw (ends_with-append attr (codes "_list")) refl
weight_list attr undefined h = refl
weight_list attr null h = refl
weight_list attr (bool b) h = refl
weight_list attr (num n) h = refl
weight_list attr (str s) h = refl
weight_list attr (obj o) h = ground arith

pub weight_arr : (k : Text) (xs : Items) → weight k (arr xs) ≤ 1
unfolding weight
weight_arr k xs = ground arith

-- How deep a value goes, an object counting twice, and how many properties its objects have.
unfoldable mutual
  unfolding keys

  pub Within : ℕ → ℕ → Value → Type 0
  Within w d undefined = Unit
  Within w d null = Unit
  Within w d (arr xs) = (1 ≤ d) × WithinItems w d xs
  Within w d (obj o) = (2 ≤ d) × (length (keys o) ≤ w) × WithinFields w d o
  Within w d _ = Unit

  pub WithinItems : ℕ → ℕ → Items → Type 0
  WithinItems w d nil = Unit
  WithinItems w d (cons x xs) = Within w (d - 1) x × WithinItems w d xs

  pub WithinFields : ℕ → ℕ → Fields → Type 0
  WithinFields w d end = Unit
  WithinFields w d (field k v o) = Within w (d - 2) v × WithinFields w d o

module _ (w d : ℕ) where
  pub put-WithinFields :
      (k : Text) (v : Value) (o : Fields)
      → Within w (d - 2) v
      → WithinFields w d o
      → WithinFields w d (put k v o)
  unfolding put Within
  put-WithinFields k v end h hs = (h, tt)
  put-WithinFields k v (field j x o) h hs = elim (Bool-cases (eq_text j k)) [
    | inl e ↦ rw e (h, hs.1)
    | inr e ↦ rw e (hs.0, put-WithinFields k v o h hs.1)
  ]

  pub remove-WithinFields :
      (k : Text) (o : Fields) → WithinFields w d o → WithinFields w d (remove k o)
  unfolding remove Within
  remove-WithinFields k end hs = tt
  remove-WithinFields k (field j x o) hs = elim (Bool-cases (eq_text j k)) [
    | inl e ↦ rw e (hs.1)
    | inr e ↦ rw e (hs.0, remove-WithinFields k o hs.1)
  ]

  pub get-Within : (k : Text) (o : Fields) → WithinFields w d o → Within w (d - 2) (get k o)
  unfolding get Within
  get-Within k end hs = tt
  get-Within k (field j x o) hs = elim (Bool-cases (eq_text j k)) [
    | inl e ↦ rw e (hs.0)
    | inr e ↦ rw e (get-Within k o hs.1)
  ]
