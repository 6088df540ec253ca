-- ===== src/Rpc/Connection/Failures.antt =====
-- The closure of a call, given a response that says that the call failed.
use pymaid.Prelude.{
  ◌≤◌, ◌≡◌, refl, ◌⊎◌, inl, inr, true, [], ◌∷◌, Text, Bytes, codes, Result, ok, throw, unfinished,
  ◌>>=◌, Ends, Ends->>=, eq_text,
}
use pymaid.Js.{Value, str, obj, end, field, is_truthy, property, set_property, put, get}
use pymaid.Jspb.Laws.{MessageLaws, ReaderLaws}
use pymaid.Api.{deserialize, error_message_type}
use pymaid.Api.Errors.{error_object, deserialize_error_lem}
use pymaid.Rpc.Env.{Env, Argument, value, raw}
use pymaid.Rpc.Connection.{Closure, deliver, with_details}

-- `{code, message, data}`, with texts as its code and its message.
abbrev pub failure_object : Text → Text → Value → Value
failure_object code message details = obj (
    field (codes "code") (str code)
      (field (codes "message") (str message) (field (codes "data") details end)))

module _ (env : Env) where
  open env use {jspb, fuel, json_parse}

  -- The data of an error: none, or what `JSON.parse` makes of a text.
  abbrev pub IsDetails : Value → Type 0
  IsDetails v = (v ≡ str []) ⊎ ((d : Text) × (json_parse (str d) ≡ ok v))

  -- What the caller's callback gets for a call that failed: an error, and the bytes that carried it.
  abbrev pub IsFailure : Bytes → Argument × Argument → Type 0
  IsFailure resp args =
      ((c t : Text) × (v : Value) × IsDetails v × (args.0 ≡ value (failure_object c t v)))
      × (args.1 ≡ raw resp)

  module _ (parses : (v : Value) → Ends (λ u. Unit {0}) (json_parse v)) where
    parsed :
        (resp : Bytes) (c t d : Text) (r : Result Value)
        → json_parse (str d) ≡ r
        → Ends (λ u. Unit {0}) r
        → Ends (IsFailure resp) (
            r >>= λ details.
            ok (value (set_property (codes "data") details (error_object c t d)), raw resp))
    unfolding put eq_text
    parsed resp c t d (ok v) e ends = ((c, t, v, inr (d, e), refl), refl)
    parsed resp c t d (throw x) e ends = tt
    parsed resp c t d unfinished e ends = ends

    with_details-IsFailure :
        (resp : Bytes) (c t d : Text)
        → Ends (IsFailure resp) (
            with_details env resp
              (error_object c t d)
              (is_truthy (property (codes "data") (error_object c t d))))
    unfolding get eq_text
    with_details-IsFailure resp c t [] = ((c, t, str [], inl refl, refl), refl)
    with_details-IsFailure resp c t (x ∷ d) =
        parsed resp c t (x ∷ d) (json_parse (str (x ∷ d))) refl (parses (str (x ∷ d)))

    -- If `JSON.parse` returns or throws, and the fuel is at least 5, the closure that is called for a
    -- response with a true `is_failed`, whatever its bytes are, returns or throws; what it returns is
    -- an error object with texts as its code and its message, whose data is empty or what `JSON.parse`
    -- returned for a text, and beside it the bytes of the response.
    pub deliver-IsFailure :
        (messages : MessageLaws jspb) (readers : ReaderLaws jspb)
        → 5 ≤ fuel
        → (closure : Closure jspb.Message) (context : Value) (resp : Bytes)
        → is_truthy (property (codes "is_failed") context) ≡ true
        → Ends (IsFailure resp) (deliver env closure context resp)
    unfolding deliver
    deliver-IsFailure messages readers h closure context resp failed = rw failed (
        Ends->>= (λ v. (c t d : Text) × (v ≡ error_object c t d)) (IsFailure resp)
          (deserialize fuel (error_message_type jspb) resp) _
          (deserialize_error_lem jspb messages readers fuel resp h)
          λ v (c, t, d, e). rw e (with_details-IsFailure resp c t d))
