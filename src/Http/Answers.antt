-- ===== src/Http/Answers.antt =====
-- The events of a request: what its response, its time-out and its error lead to.
use pymaid.Prelude.{
  ℕ, ◌==◌, ◌||◌, between, [], ◌∷◌, List, Text, codes, Bool, if◌then◌else◌, Result, ok, throw,
  unfinished, syntax_error, type_error,
}
use pymaid.Js.{Value, undefined, null, num, str, obj, end, field}
use mathlib.Core.List.{reverse}
use pymaid.Http.{Call, Manager, Response, on_req_finish, get_url}

-- White space and line ends, which `trim` takes away.
abbrev pub is_space : ℕ → Bool
is_space c =
    between 9 13 c
    || c == 32
    || c == 0xa0
    || c == 0x1680
    || between 0x2000 0x200a c
    || c == 0x2028
    || c == 0x2029
    || c == 0x202f
    || c == 0x205f
    || c == 0x3000
    || c == 0xfeff

unfoldable pub trim_start : Text → Text
trim_start [] = []
trim_start (c ∷ s) = let rest = trim_start s in if is_space c then rest else c ∷ s

unfoldable pub trim : Text → Text
unfolding trim_start
trim s = reverse (trim_start (reverse (trim_start s)))

-- What a request leads to: `cb(err, response)`, `onNotAuthenticated()`, another request.
pub data Outcome : Type 0 where
  answered : Value → Value → Outcome
  not_authenticated : Outcome
  requested : List Call → Outcome

abbrev pub failure : Text → ℕ → Value
failure message status =
    obj (field (codes "message") (str message) (field (codes "status") (num status) end))

-- `JSON.parse` is a parameter.
module _ (json_parse : Text → Result Value) where
  -- The body of a request that succeeded, and of one that was refused with an error.
  abbrev pub succeeded : ℕ → Text → Result Value → Result Outcome
  succeeded status text (ok v) = ok (answered null v)
  succeeded status text (throw syntax_error) =
      ok (answered (failure (codes "invalid json response") status) (str text))
  succeeded status text (throw e) = throw e
  succeeded status text unfinished = unfinished

  abbrev pub refused : ℕ → Text → Result Value → Result Outcome
  refused status text (ok v) = ok (answered v (str text))
  refused status text (throw syntax_error) = ok (answered (failure text status) (str text))
  refused status text (throw e) = throw e
  refused status text unfinished = unfinished

  abbrev pub redirected : Value → Manager → Result Outcome
  redirected (str location) m = ok (requested (get_url (trim location) end undefined m))
  redirected _ m = throw type_error

  unfoldable pub onload : Response → Manager → Manager × Result Outcome
  unfolding on_req_finish trim get_url
  onload res m =
      let m' = on_req_finish res m in
      let status = res.status in
      let text = res.response_text in
      let outcome =
        if between 200 207 status
        then succeeded status text (json_parse text)
        else if status == 301 || status == 302
        then redirected res.location m'
        else if status == 400
        then refused status text (json_parse text)
        else if status == 401
        then ok not_authenticated
        else ok (answered (failure text status) (str text)) in
      (m', outcome)

-- `cb` has one argument here.
unfoldable pub ontimeout : Outcome
ontimeout =
    answered
      (obj (
        field (codes "status") (num 444)
          (field (codes "message") (str (codes "http request timeout")) end)))
      undefined

unfoldable pub onerror : ℕ → Outcome
onerror status = answered (failure (codes "http request onerror") status) undefined
