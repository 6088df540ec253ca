-- ===== src/Js/Indices.antt =====
-- Properties whose names are array indices: an object lists them first, the smallest in front.
use pymaid.Prelude.{
  ℕ, ◌+◌, ◌-◌, ◌*◌, ◌^◌, [], ◌∷◌, Text, Option, none, some, between, ltb, ◌==◌, eq_text,
  if◌then◌else◌,
}
use pymaid.Js.{Value, Fields, end, field, put}

-- The number that digits stand for, behind those that stand for `n`.
unfoldable pub read_digits : ℕ → Text → Option ℕ
read_digits n [] = some n
read_digits n (c ∷ s) =
    let rest = read_digits (n * 10 + (c - b'0')) s in if between b'0' b'9' c then rest else none

-- An index is below 2 ^ 32 - 1.
abbrev pub in_range : Option ℕ → Option ℕ
in_range none = none
in_range (some n) = if ltb n (2 ^ 32 - 1) then some n else none

-- The index that a name is: digits, the first of them no 0, or a 0 alone.
unfoldable pub index_of : Text → Option ℕ
unfolding read_digits
index_of [] = none
index_of (c ∷ []) = in_range (read_digits 0 (c ∷ []))
index_of (c ∷ d ∷ s) = if c == b'0' then none else in_range (read_digits 0 (c ∷ d ∷ s))

-- `o[k] = v`, for the index `n` that is written `k`.
abbrev pub place : ℕ → Text → Value → Text → Value → Fields → Fields → Option ℕ → Fields
place n k v j w o rest none = field k v (field j w o)
place n k v j w o rest (some i) = if ltb n i then field k v (field j w o) else field j w rest

unfoldable pub put_index : ℕ → Text → Value → Fields → Fields
unfolding index_of
put_index n k v end = field k v end
put_index n k v (field j w o) =
    let rest = put_index n k v o in
    if eq_text j k then field j v o else place n k v j w o rest (index_of j)

-- `o[k] = v`, for any name.
unfoldable pub put_any : Text → Value → Fields → Fields
unfolding put_index index_of put
put_any k v o = elim (index_of k) [ none ↦ put k v o | some n ↦ put_index n k v o ]
