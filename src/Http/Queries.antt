-- ===== src/Http/Queries.antt =====
-- What a query string says: the names and values that `getParams` was given.
use pymaid.Prelude.{ℕ, ◌==◌, ◌≢◌, [], ◌∷◌, ◌++◌, List, Text, if◌then◌else◌}
use pymaid.Js.{Value, arr, Items, nil, cons, Fields, end, field}
use pymaid.Prelude.{map}
use pymaid.Http.Urls.{text_of}

-- The parts of a text between the units `sep`.
prepend : ℕ → List Text → List Text
prepend c [] = (c ∷ []) ∷ []
prepend c (s ∷ rest) = (c ∷ s) ∷ rest

unfoldable pub split : ℕ → Text → List Text
unfolding prepend
split sep [] = [] ∷ []
split sep (c ∷ s) = let rest = split sep s in if c == sep then [] ∷ rest else prepend c rest

abbrev pub HasNo : ℕ → Text → Type 0
HasNo sep [] = Unit
HasNo sep (c ∷ s) = (c ≢ sep) × HasNo sep s

-- A pair, cut at its first `=`.
before_equals : ℕ → Text × Text → Text × Text
before_equals c (k, v) = (c ∷ k, v)

unfoldable pub cut_pair : Text → Text × Text
unfolding before_equals
cut_pair [] = ([], [])
cut_pair (c ∷ s) = let rest = cut_pair s in if c == b'=' then ([], s) else before_equals c rest

-- A query as a server reads it: its pairs between the `&`, each a name and a value.
unfoldable pub parse_query : Text → List (Text × Text)
unfolding split cut_pair
parse_query s = map cut_pair (split b'&' s)

-- The names and values of data: an array has a value for each of its elements, anything else has one.
abbrev pub elements_of : Items → List Text
elements_of nil = []
elements_of (cons x xs) = text_of x ∷ elements_of xs

abbrev pub values_of : Value → List Text
values_of (arr xs) = elements_of xs
values_of v = text_of v ∷ []

abbrev pub named : Text → List Text → List (Text × Text)
named k [] = []
named k (v ∷ vs) = (k, v) ∷ named k vs

abbrev pub entries_of : Fields → List (Text × Text)
entries_of end = []
entries_of (field k v o) = named k (values_of v) ++ entries_of o

-- An entry whose name and value do not hold the units that a query is made of.
abbrev pub IsReadable : Text × Text → Type 0
IsReadable (k, v) = HasNo b'=' k × HasNo b'&' k × HasNo b'&' v

abbrev written : Text × Text → Text
written (k, v) = k ++ b'=' ∷ v
