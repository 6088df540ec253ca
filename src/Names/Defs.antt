-- ===== src/Names/Defs.antt =====
-- The conversions.
use pymaid.Prelude.{ℕ, ◌+◌, ◌-◌, Bool, ◌||◌, [], ◌∷◌, Text, ◌==◌, between, if◌then◌else◌}
use pymaid.Js.{
  Value, undefined, null, bool, num, str, arr, obj, Items, nil, cons, Fields, end, field, put,
}

abbrev pub is_upper : ℕ → Bool
is_upper c = between b'A' b'Z' c

abbrev pub is_lower : ℕ → Bool
is_lower c = between b'a' b'z' c

-- `/\w/`
abbrev pub is_word : ℕ → Bool
is_word c = is_upper c || is_lower c || between b'0' b'9' c || c == b'_'

-- `toLowerCase` and `toUpperCase` of one unit of a name, which is in ASCII.
unfoldable pub lower : ℕ → ℕ
lower c = if is_upper c then c + 32 else c

unfoldable pub upper : ℕ → ℕ
upper c = if is_lower c then c - 32 else c

-- `attr.replace(/([A-Z])/g, '_$1').toLowerCase()`, of a name in ASCII: what `toLowerCase` does to other
-- letters is left out, as they are.
unfoldable pub underscore_key : Text → Text
unfolding lower
underscore_key [] = []
underscore_key (c ∷ s) =
    let rest = underscore_key s in if is_upper c then b'_' ∷ lower c ∷ rest else lower c ∷ rest

-- `attr.replace(/_(\w)/g, function(all, letter) {return letter.toUpperCase()})`: a match takes two
-- units, and the search goes on behind it.
unfoldable pub camel_key : Text → Text
unfolding upper
camel_key [] = []
camel_key (c ∷ []) = c ∷ []
camel_key (c ∷ d ∷ s) =
    let matched = upper d ∷ camel_key s in
    let other = c ∷ camel_key (d ∷ s) in
    if c == b'_' then (if is_word d then matched else other) else other

-- The loops of `underscore` and `camel` over a value, its elements and its properties: `rename` is
-- what they do to a property's name.
module _ (rename : Text → Text) where
  unfoldable mutual
    pub convert : Value → Value
    convert undefined = undefined
    convert null = null
    convert (bool b) = bool b
    convert (num n) = num n
    convert (str s) = str s
    convert (arr xs) = arr (convert_items xs)
    convert (obj o) = obj (convert_fields o end)

    pub convert_items : Items → Items
    convert_items nil = nil
    convert_items (cons x xs) = cons (convert x) (convert_items xs)

    -- `out` is the object that the loop has built so far.
    pub convert_fields : Fields → Fields → Fields
    convert_fields end out = out
    convert_fields (field k v o) out = convert_fields o (put (rename k) (convert v) out)

unfoldable pub underscore : Value → Value
underscore = convert underscore_key

unfoldable pub camel : Value → Value
camel = convert camel_key
