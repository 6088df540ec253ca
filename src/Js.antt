-- ===== src/Js.antt =====
-- The values of JavaScript that the client builds and reads, and the operations of plain objects.
-- A number is a natural number: the code uses counters, enum values, sizes and status codes.
-- An object lists its own properties in the order in which they were added, so none of the keys that
-- `put` adds is an array index (such keys come first in JavaScript: Js.Indices), and none is
-- `__proto__`. The names of properties are in ASCII.
pub mod Objects
pub mod Indices
use pymaid.Prelude.{
  ℕ, zero, suc, Bool, true, false, not, List, [], ◌∷◌, Text, eq_text, ◌==◌, if◌then◌else◌,
}

mutual
  pub data Value : Type 0 where
    undefined : Value
    null : Value
    bool : Bool → Value
    num : ℕ → Value
    str : Text → Value
    arr : Items → Value
    obj : Fields → Value

  pub data Items : Type 0 where
    nil : Items
    cons : Value → Items → Items

  pub data Fields : Type 0 where
    end : Fields
    field : Text → Value → Fields → Fields

-- `o[k] = v`: an own property keeps its place, a new one comes last.
unfoldable pub put : Text → Value → Fields → Fields
put k v end = field k v end
put k v (field j w o) = if eq_text j k then field j v o else field j w (put k v o)

-- `o[k]`, undefined where there is no such property.
unfoldable pub get : Text → Fields → Value
get k end = undefined
get k (field j w o) = if eq_text j k then w else get k o

-- `o.hasOwnProperty(k)`
unfoldable pub has_own : Text → Fields → Bool
has_own k end = false
has_own k (field j w o) = if eq_text j k then true else has_own k o

-- `delete o[k]`
unfoldable pub remove : Text → Fields → Fields
remove k end = end
remove k (field j w o) = if eq_text j k then o else field j w (remove k o)

-- `Object.keys(o)`
unfoldable pub keys : Fields → List Text
keys end = []
keys (field j w o) = j ∷ keys o

-- `v != null`
abbrev pub is_present : Value → Bool
is_present undefined = false
is_present null = false
is_present _ = true

-- `if (v)`
abbrev pub is_truthy : Value → Bool
is_truthy undefined = false
is_truthy null = false
is_truthy (bool b) = b
is_truthy (num n) = not (n == 0)
is_truthy (str []) = false
is_truthy _ = true

-- `v === n` for a number `n`
abbrev pub is_number : ℕ → Value → Bool
is_number n (num m) = m == n
is_number n _ = false

-- `goog.isArray(v)`
abbrev pub is_array : Value → Bool
is_array (arr xs) = true
is_array _ = false

-- `v === true`
abbrev pub is_true : Value → Bool
is_true (bool b) = b
is_true _ = false

-- `[x, y]`
abbrev pub pair : Value → Value → Value
pair x y = arr (cons x (cons y nil))

-- `xs.length`
unfoldable pub size_items : Items → ℕ
size_items nil = 0
size_items (cons x xs) = suc (size_items xs)

-- `xs[n]`, undefined out of range.
unfoldable pub item : ℕ → Items → Value
item n nil = undefined
item zero (cons x xs) = x
item (suc n) (cons x xs) = item n xs

-- `v.k`, for a value that is neither null nor undefined: only plain objects have named properties here.
abbrev pub property : Text → Value → Value
property k (obj o) = get k o
property k _ = undefined

-- `v.k = w`
abbrev pub set_property : Text → Value → Value → Value
set_property k w (obj o) = obj (put k w o)
set_property k w v = v
