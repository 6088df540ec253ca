-- ===== src/Rpc/Listener/Heard.antt =====
-- What a listener does with a request: it invokes a method, or nothing, or it throws.
use pymaid.Prelude.{
  List, [], ◌∷◌, Text, Bytes, Option, none, some, Result, ok, throw, unfinished, Exception, ◌>>=◌,
}
use pymaid.Js.{Value, undefined, null, bool, num, str, arr, obj, property}
use pymaid.Prelude.{codes}
use pymaid.Api.{deserialize}
use pymaid.Rpc.Env.{Env, Method, Event, invoked}
use pymaid.Rpc.Listener.{Listener, listen, dispatch, named, lookup_method, split_service_method}

-- What holds of each of these outcomes holds of the listener's.
module _ (env : Env) (P : Result (List Event) → Type 0) (nothing_done : P (ok []))
    (one : (service method : Text) (context req : Value)
      → P (ok (invoked service method context req ∷ [])))
    (thrown : (e : Exception) → P (throw e)) (no_fuel : P unfinished) where
  open env use {jspb}

  deserialized :
      (r : Result Value) (names : Text × Text) (context : Value)
      → P (r >>= λ req. ok (invoked names.0 names.1 context req ∷ []))
  deserialized (ok req) names context = one names.0 names.1 context req
  deserialized (throw e) names context = thrown e
  deserialized unfinished names context = no_fuel

  dispatched :
      (m : Option (Method jspb.Message)) (names : Text × Text) (context : Value) (content : Bytes)
      → P (dispatch env m names context content)
  dispatched none names context content = nothing_done
  dispatched (some method) names context content =
      deserialized (deserialize env.fuel method.input_type content) names context

  by_name :
      (l : Listener jspb.Message) (context : Value) (content : Bytes) (v : Value)
      → P (named env l context content v)
  by_name l context content (str s) =
      dispatched (lookup_method l (split_service_method s)) (split_service_method s) context content
  by_name l context content undefined = thrown _
  by_name l context content null = thrown _
  by_name l context content (bool b) = thrown _
  by_name l context content (num n) = thrown _
  by_name l context content (arr xs) = thrown _
  by_name l context content (obj o) = thrown _

  pub listen_cases :
      (l : Listener jspb.Message) (context : Value) (content : Bytes)
      → P (listen env l context content)
  unfolding listen
  listen_cases l context content =
      by_name l context content (property (codes "service_method") context)
