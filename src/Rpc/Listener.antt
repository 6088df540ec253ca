-- ===== src/Rpc/Listener.antt =====
-- `Listener` of plugin/js/pymaid.js: requests from the server, and the answers to them.
pub mod Replies
pub mod Heard
use pymaid.Prelude.{
  ℕ, zero, suc, ◌+◌, ◌≡◌, refl, Bool, true, false, List, [], ◌∷◌, ◌++◌, Text, Bytes, codes, eq_text,
  take, drop, ◌==◌, if◌then◌else◌, Option, none, some, Result, ok, throw, error, type_error, ◌>>=◌,
}
use pymaid.Js.{Value, str, num, property, is_truthy}
use pymaid.Jspb.{Jspb}
use pymaid.Parser.{pack}
use pymaid.Pb.Context.{set_packet_type, set_is_failed, response_packet}
use pymaid.Js
use pymaid.Api.{
  MessageType, Payload, instance_of, plain, context_type, error_message_type, void_type, same_type,
  instantiate, serialize, deserialize,
}
use pymaid.Rpc.Env.{Env, Method, Argument, nothing, value, raw, Event, invoked}

-- An implementation of a service: its name, and its methods.
pub record Impl (Message : Type 0) : Type 0 where
  pub name : Text
  pub methods : List (Text × Method Message)

-- `o[k]` of an object that is used as a table.
unfoldable pub find {ℓ} : {A : Type ℓ} → Text → List (Text × A) → Option A
unfolding eq_text
find k [] = none
find k ((i, a) ∷ t) = if eq_text i k then some a else find k t

-- `o[k] = a`
unfoldable pub insert {ℓ} : {A : Type ℓ} → Text → A → List (Text × A) → List (Text × A)
unfolding eq_text
insert k a [] = (k, a) ∷ []
insert k a ((i, b) ∷ t) = if eq_text i k then (k, a) ∷ t else (i, b) ∷ insert k a t

pub record Listener (Message : Type 0) : Type 0 where
  pub implementations : List (Text × Impl Message)

-- The service is found under its name, with and without a dot in front.
unfoldable pub register : {M : Type 0} → Impl M → Listener M → Listener M
register impl listener = record {
  implementations = insert impl.name impl (insert (b'.' ∷ impl.name) impl listener.implementations);
}

-- `s.lastIndexOf('.')`, none for -1.
unfoldable pub last_dot : Text → Option ℕ
last_dot [] = none
last_dot (c ∷ s) = elim (last_dot s) [
  | some i ↦ some (suc i)
  | none ↦ if c == b'.' then some 0 else none
]

-- `[s.substr(0, dot), s.substr(dot + 1)]`: with no dot, a length of -1 gives the empty text.
abbrev pub cut : Text → Option ℕ → Text × Text
cut s none = ([], s)
cut s (some dot) = (take dot s, drop (dot + 1) s)

unfoldable pub split_service_method : Text → Text × Text
unfolding last_dot
split_service_method s = cut s (last_dot s)

-- The method that is meant, if its implementation is there.
unfoldable pub lookup_method : {M : Type 0} → Listener M → Text × Text → Option (Method M)
lookup_method listener (service, method) = elim (find service listener.implementations) [
  | none ↦ none
  | some impl ↦ find method impl.methods
]

module _ (env : Env) where
  open env use {jspb, fuel}

  abbrev pub dispatch :
      Option (Method jspb.Message) → Text × Text → Value → Bytes → Result (List Event)
  dispatch none names context content = ok []
  dispatch (some method) names context content =
      deserialize fuel method.input_type content >>= λ req.
      ok (invoked names.0 names.1 context req ∷ [])

  abbrev pub named : Listener jspb.Message → Value → Bytes → Value → Result (List Event)
  named listener context content (str s) =
      let names = split_service_method s in
      dispatch (lookup_method listener names) names context content
  named listener context content _ = throw type_error

  -- `listener.onmessage(context, content, conn)`. A name that is no text has no `lastIndexOf`.
  unfoldable pub listen : Listener jspb.Message → Value → Bytes → Result (List Event)
  listen listener context content =
      named listener context content (property (codes "service_method") context)

  -- What an implementation passes to its callback for a response: an instance of the response's class,
  -- or bytes.
  pub data Content : Type 0 where
    no_content : Content
    message : jspb.Message → Content
    buffer : Bytes → Content

  -- `context.setPacketType(RESPONSE)` and `context.setIsFailed(true)`: plain objects have no setters.
  abbrev set_response : Payload jspb.Message → Result (Payload jspb.Message)
  set_response (plain v) = throw type_error
  set_response (instance_of proto m) =
      ok (instance_of proto (set_packet_type jspb m (num response_packet)))

  abbrev set_failed : Payload jspb.Message → Result (Payload jspb.Message)
  set_failed (plain v) = throw type_error
  set_failed (instance_of proto m) = ok (instance_of proto (set_is_failed jspb m (Js.bool true)))

  abbrev as_payload : MessageType jspb.Message → Text → Content → Result (Payload jspb.Message)
  as_payload resp_type service_method no_content =
      throw (error (codes "pymaid: impl: " ++ (service_method ++ codes " got null content")))
  as_payload resp_type service_method (message m) = ok (instance_of resp_type m)
  as_payload resp_type service_method (buffer bytes) =
      deserialize fuel resp_type bytes >>= λ v. ok (plain v)

  unfoldable fail : Payload jspb.Message → Value → Result (Option Bytes)
  fail context err = do
    answer ← set_response context
    answer ← set_failed answer
    head ← serialize answer
    m ← instantiate fuel (error_message_type jspb) err
    body ← serialize (instance_of (error_message_type jspb) m)
    ok (some (pack head body))

  unfoldable succeed :
      Method jspb.Message → Text → Payload jspb.Message → Content → Result (Option Bytes)
  succeed method service_method context content = do
    answer ← set_response context
    payload ← as_payload method.output_type service_method content
    head ← serialize answer
    body ← serialize payload
    ok (some (pack head body))

  -- The callback that an implementation is given: the packet that it sends, if it sends one.
  unfoldable pub reply :
      Method jspb.Message → Text → Payload jspb.Message → Value → Content → Result (Option Bytes)
  unfolding fail succeed
  reply method service_method context err content =
      if same_type method.output_type (void_type jspb)
      then ok none
      else if is_truthy err
      then fail context err
      else succeed method service_method context content
