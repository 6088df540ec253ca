-- ===== src/Examples/Echo/Calls.antt =====
-- An exchange of the echo service: what the server reads, and what the caller is told.
use pymaid.Prelude.{
  ℕ, suc, ◌-◌, ◌≤◌, ◌<◌, ◌^◌, ◌≡◌, refl, ◌∙◌, [], ◌∷◌, List, Option, Text, Bytes, length, codes,
  eq_text, ends_with, IsWellFormed, true, false, some, none, Result, ok, arith, ◌==◌, if◌then◌else◌,
}
use pymaid.Js.{Value, str, obj, end, field, get, put, has_own, keys}
use pymaid.Jspb.Laws.{MessageLaws, WireLaws}
use pymaid.Names.Defs.{underscore, camel, underscore_key, camel_key, convert}
use pymaid.Convert.Loop.{loop}
use pymaid.Convert.Instantiate.{instantiate_transform, instantiate_body, is_pbmap}
use pymaid.Convert.Deserialize.{deserialize_transform, deserialize_body}
use pymaid.Parser.{pack, unpack}
use pymaid.Pb.Context.{response_packet}
use pymaid.Pb.Context.Contents.{Contents, InRange, Holds}
use pymaid.Api.{context_type, instantiate, serialize, deserialize, instance_of}
use pymaid.Api.Contexts.{context_object, request_contents, request_message}
use pymaid.Rpc.Env.{Env, Event, sent, called, nothing, value}
use pymaid.Rpc.Connection.{Step, Conn, call, fields, waiting, deliver}
use pymaid.Rpc.Connection.Inbound.{on_message}
use pymaid.Rpc.Connection.Pending.{IsSound, call-IsSound}
use pymaid.Rpc.Connection.Requests.{call_sends}
use pymaid.Rpc.Connection.Answers.{on_message_response, waiting-await_next}
use pymaid.Examples.Echo.{get_message, to_object, from_object, message_type, echo_method}
use pymaid.Examples.Echo.RoundTrip.{deserialize_binary-serialize_binary_echo}

-- `{message: s}`
abbrev pub message_object : Text → Value
message_object s = obj (field (codes "message") (str s) end)

abbrev pub echo_name : Text
echo_name = codes "echo.EchoService.UnaryUnaryEcho"

pub echo_name-IsWellFormed : IsWellFormed echo_name
echo_name-IsWellFormed = ground arith

if_same : {A : Type 0} (k tid : ℕ) (a : Option A) → tid ≡ k → (if k == tid then none else a) ≡ none
if_same k tid a same = ground arith

transform-message_object :
    (f : ℕ) (s : Text)
    → (instantiate_transform (suc (suc (suc f))) (message_object s) ≡ ok (message_object s))
      × (deserialize_transform (suc (suc (suc f))) (message_object s) ≡ ok (message_object s))
unfolding instantiate_transform deserialize_transform loop instantiate_body deserialize_body
    is_pbmap keys has_own get ends_with eq_text
transform-message_object f s = (refl, refl)

module _ (env : Env) (laws : MessageLaws env.jspb) (wire_laws : WireLaws env.jspb) where
  open env use {jspb, fuel}

  abbrev pub echo_message : Text → jspb.Message
  echo_message s = jspb.set_field jspb.initialize 1 (str s)

  enough : 3 ≤ fuel → fuel ≡ suc (suc (suc (fuel - 3)))
  enough h = omega arith

  pub instantiate-message_object :
      (s : Text)
      → 3 ≤ fuel
      → instantiate fuel (message_type jspb) (message_object s) ≡ ok (echo_message s)
  unfolding instantiate camel convert camel_key put get eq_text from_object
  instantiate-message_object s h = rw (enough h, (transform-message_object (fuel - 3) s).0)

  -- An echo message is serialized, and `pb.deserialize` of the bytes is the plain object of its text.
  pub deserialize-serialize_echo :
      (msg : jspb.Message) (s : Text)
      → 3 ≤ fuel
      → get_message jspb msg ≡ str s
      → IsWellFormed s
      → (bytes : Bytes) × (serialize (instance_of (message_type jspb) msg) ≡ ok bytes)
        × (deserialize fuel (message_type jspb) bytes ≡ ok (message_object s))
  unfolding serialize deserialize to_object underscore convert underscore_key put eq_text
  deserialize-serialize_echo msg s h holds well =
      let (bytes, msg', written, read, same) =
        deserialize_binary-serialize_binary_echo jspb laws wire_laws msg s holds well in
      (bytes, written, rw (read, same, enough h, (transform-message_object (fuel - 3) s).1))

  pub echo_message-text : (s : Text) → get_message jspb (echo_message s) ≡ str s
  echo_message-text s = simp (laws.get_field_lem, laws.set_field_lem)

  delivered :
      (cb : ℕ) (d : Contents) (answer : jspb.Message) (t : Text)
      → 3 ≤ fuel
      → d.is_failed ≡ false
      → get_message jspb answer ≡ str t
      → IsWellFormed t
      → (bytes : Bytes) × (serialize (instance_of (message_type jspb) answer) ≡ ok bytes)
        × (deliver env
              (record { output_type = message_type jspb; cb = cb })
              (context_object d)
              bytes
            ≡ ok (nothing, value (message_object t)))
  unfolding deliver get eq_text
  delivered cb d answer t enough_fuel fine holds well =
      let (bytes, written, read) = deserialize-serialize_echo answer t enough_fuel holds well in
      (bytes, written, rw (fine, read) refl)

  abbrev pub echo_step : Text → ℕ → Conn jspb.Message → Step jspb.Message
  echo_step s cb conn =
      call env (codes "echo.EchoService") (codes "UnaryUnaryEcho") (echo_method jspb)
        (fields (message_object s)) (some cb) conn

  module _ (conn : Conn jspb.Message) (s : Text) (cb : ℕ) (enough_fuel : 9 ≤ fuel)
      (small : conn.transmission_id < 2 ^ 32) (sound : IsSound conn) (live : conn.is_closed ≡ false)
      (open_socket : conn.ready ≡ true)
      (heads : (head : Bytes)
        → serialize (
            instance_of
              (context_type jspb)
              (request_message jspb laws echo_name conn.transmission_id))
          ≡ ok head
        → length head < 2 ^ 16)
      (bodies : (body : Bytes)
        → serialize (instance_of (message_type jspb) (echo_message s)) ≡ ok body
        → length body < 2 ^ 16) where
    -- `stub.UnaryUnaryEcho({message: s}, cb)` sends one packet, in which the server reads the name of the
    -- method and the message `{message: s}`.
    pub echo_call :
        IsWellFormed s
        → let step = echo_step s cb conn in
          (packet body : Bytes) × (step.events ≡ sent conn.connid packet ∷ [])
          × (unpack (deserialize fuel (context_type jspb)) packet
              ≡ ok (record {
                context = context_object (request_contents echo_name conn.transmission_id);
                content = body;
              }))
          × (deserialize fuel (message_type jspb) body ≡ ok (message_object s))
          × (waiting conn.transmission_id step.conn.transmissions
              ≡ some (record { output_type = message_type jspb; cb = cb }))
    echo_call well =
        let (body, written, read) =
          deserialize-serialize_echo (echo_message s) s (omega arith) (echo_message-text s) well in
        let (packet, e, unpacked) =
          call_sends env laws wire_laws (codes "echo.EchoService") (codes "UnaryUnaryEcho")
            (echo_method jspb) (fields (message_object s)) cb conn (echo_message s) body enough_fuel
            small echo_name-IsWellFormed (instantiate-message_object s (omega arith)) written
            (bodies body written) heads refl live open_socket in
        (
          packet,
          body,
          rw e refl,
          unpacked,
          read,
          rw e
              (waiting-await_next conn (record { output_type = message_type jspb; cb = cb }) sound),
        )

    -- When the server answers such a call with a message of the text `t`, in a response that has the
    -- call's number and did not fail, the callback gets no error and `{message: t}`, and the number is
    -- free again.
    pub echo_exchange :
        (listen : Value → Bytes → Result (List Event)) (d : Contents) (m answer : jspb.Message)
        (t : Text) (head body : Bytes)
        → Holds jspb m d
        → InRange d
        → d.packet_type ≡ response_packet
        → d.transmission_id ≡ conn.transmission_id
        → d.is_failed ≡ false
        → get_message jspb answer ≡ str t
        → IsWellFormed s
        → IsWellFormed t
        → serialize (instance_of (context_type jspb) m) ≡ ok head
        → length head < 2 ^ 16
        → serialize (instance_of (message_type jspb) answer) ≡ ok body
        → length body < 2 ^ 16
        → let step = on_message env listen (pack head body) (echo_step s cb conn).conn in
          (step.result ≡ ok tt)
          × (step.events ≡ called cb nothing (value (message_object t)) ∷ [])
          × (waiting conn.transmission_id step.conn.transmissions ≡ none)
    echo_exchange listen d m answer t head body holds range kind same fine says well well_t written
          small wrote short =
        let (packet, sent_body, sends, unpacked, read, awaits) = echo_call well in
        let (bytes, wrote', done) = delivered cb d answer t (omega arith) fine says well_t in
        let same_bytes : bytes ≡ body = cc in
        let (result, events, others) =
          on_message_response env laws wire_laws listen m d head body (echo_step s cb conn).conn
            (record { output_type = message_type jspb; cb = cb }) nothing (value (message_object t))
            enough_fuel holds range kind written small short
            (call-IsSound env (codes "echo.EchoService") (codes "UnaryUnaryEcho") (echo_method jspb)
              (fields (message_object s)) (some cb) conn sound)
            (rw same awaits) (rw (← same_bytes) done) in
        (
          result,
          events,
          others conn.transmission_id ∙ if_same conn.transmission_id d.transmission_id _ same,
        )
