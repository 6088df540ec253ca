-- ===== src/Names/Keys.antt =====
-- What `underscore` and `camel` do to a property's name.
use pymaid.Prelude.{
  ℕ, ◌+◌, ◌<◌, ◌≡◌, refl, ◌≢◌, Bool-cases, inl, inr, true, false, [], ◌∷◌, Text, ◌==◌, arith,
  if◌then◌else◌,
}
use pymaid.Names.Defs.{is_upper, is_lower, underscore_key, camel_key}

-- A name in ASCII with no `_`, such as the camelCase name of a field.
abbrev pub IsPlain : Text → Type 0
IsPlain [] = Unit
IsPlain (c ∷ s) = (c ≢ b'_') × (c < 128) × IsPlain s

-- A snake_case name in ASCII: no capital, and a small letter behind each `_` that is not the last unit.
abbrev pub IsSnake : Text → Type 0
IsSnake [] = Unit
IsSnake (c ∷ []) = (is_upper c ≡ false) × (c < 128)
IsSnake (c ∷ d ∷ s) =
    if c == b'_'
    then (is_lower d ≡ true) × IsSnake s
    else (is_upper c ≡ false) × (c < 128) × IsSnake (d ∷ s)

camel_key-cons : (c : ℕ) (s : Text) → c ≢ b'_' → camel_key (c ∷ s) ≡ c ∷ camel_key s
unfolding camel_key
camel_key-cons c [] h = refl
camel_key-cons c (d ∷ s) h = ground arith

camel_key-upper :
    (c : ℕ) (s : Text) → is_upper c ≡ true → camel_key (b'_' ∷ (c + 32) ∷ s) ≡ c ∷ camel_key s
unfolding camel_key
camel_key-upper c s h = ground arith

-- The names of the generated code come back unchanged from snake_case.
pub camel_key-underscore_key : (s : Text) → IsPlain s → camel_key (underscore_key s) ≡ s
unfolding underscore_key
camel_key-underscore_key [] h = unfold camel_key in refl
camel_key-underscore_key (c ∷ s) h = elim (Bool-cases (is_upper c)) [
  | inl big ↦ rw (big, camel_key-upper c (underscore_key s) big, camel_key-underscore_key s h.2)
  | inr small ↦
      rw (small, camel_key-cons c (underscore_key s) h.0) (rw (camel_key-underscore_key s h.2))
]

-- And snake_case names from camelCase.
pub underscore_key-camel_key : (s : Text) → IsSnake s → underscore_key (camel_key s) ≡ s
unfolding camel_key underscore_key
underscore_key-camel_key [] h = refl
underscore_key-camel_key (c ∷ []) h = ground arith
underscore_key-camel_key (c ∷ d ∷ s) h =
    ground (arith, underscore_key-camel_key s, underscore_key-camel_key (d ∷ s))
