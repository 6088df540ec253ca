-- ===== src/Http/Urls.antt =====
-- Addresses and query strings of `HttpManager`: `getParams`, `_realUrl` and `setRootUrl` of
-- plugin/js/pymaid.js.
use pymaid.Prelude.{
  ℕ, ◌||◌, [], ◌∷◌, ◌++◌, List, Text, codes, starts_with, ends_with, drop_last, decimal,
  if◌then◌else◌, Bool, true, false,
}
use pymaid.Js.{
  Value, undefined, null, bool, num, str, arr, obj, Items, nil, cons, Fields, end, field,
}

-- `xs.join(sep)` for one unit `sep`
unfoldable pub join : ℕ → List Text → Text
join sep [] = []
join sep (s ∷ []) = s
join sep (s ∷ t ∷ rest) = s ++ sep ∷ join sep (t ∷ rest)

-- `'' + v`; null and undefined are empty as elements of an array.
unfoldable mutual
  unfolding join decimal

  pub text_of : Value → Text
  text_of undefined = codes "undefined"
  text_of null = codes "null"
  text_of (bool true) = codes "true"
  text_of (bool false) = codes "false"
  text_of (num n) = decimal n
  text_of (str s) = s
  text_of (arr xs) = join b',' (texts_of xs)
  text_of (obj o) = codes "[object Object]"

  pub texts_of : Items → List Text
  texts_of nil = []
  texts_of (cons undefined xs) = [] ∷ texts_of xs
  texts_of (cons null xs) = [] ∷ texts_of xs
  texts_of (cons x xs) = text_of x ∷ texts_of xs

abbrev pub pair_of : Text → Value → Text
pair_of attr v = attr ++ b'=' ∷ text_of v

unfoldable pub pairs_of : Text → Items → List Text
unfolding text_of
pairs_of attr nil = []
pairs_of attr (cons x xs) = pair_of attr x ∷ pairs_of attr xs

-- The list `params`: a pair for each property, and for each element of an array.
unfoldable pub params_of : Fields → List Text
unfolding pairs_of text_of
params_of end = []
params_of (field attr (arr xs) o) = pairs_of attr xs ++ params_of o
params_of (field attr v o) = pair_of attr v ∷ params_of o

unfoldable pub get_params : Fields → Text
unfolding params_of join
get_params data_fields = join b'&' (params_of data_fields)

abbrev pub is_absolute : Text → Bool
is_absolute url = starts_with url (codes "http://") || starts_with url (codes "https://")

unfoldable pub real_url : Text → Text → Text
unfolding starts_with
real_url root_url url = if is_absolute url then url else root_url ++ url

-- What `setRootUrl` stores.
unfoldable pub root_of : Text → Text
unfolding starts_with ends_with drop_last
root_of url =
    let absolute = if is_absolute url then url else codes "http://" ++ url in
    if ends_with absolute (codes "/") then drop_last 1 absolute else absolute
