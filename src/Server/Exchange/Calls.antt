-- ===== src/Server/Exchange/Calls.antt =====
-- A call of the client from the request to the callback, by way of a method of the server.
use pymaid.Prelude.{
  ℕ, ◌+◌, ◌≤◌, ◌<◌, ◌^◌, ◌≡◌, refl, ap, ◌∙◌, ◌++◌, Bool, not, ◌||◌, true, false, List, [], ◌∷◌,
  Text, Bytes, length, IsWellFormed, some, none, Result, ok, ◌==◌, arith, Bool-cases, inl, inr,
}
use pymaid.Js.{Value}
use pymaid.Jspb.Laws.{MessageLaws, WireLaws}
use pymaid.Pb.Context.Contents.{Contents}
use pymaid.Api.{context_type, serialize, deserialize, instance_of, same_type, void_type}
use pymaid.Api.Contexts.{request_message}
use pymaid.Rpc.Env.{Env, Method, Event, called, nothing, value}
use pymaid.Rpc.Listener.{find}
use pymaid.Rpc.Connection.{Conn, Request, as_message, call, waiting, forget, await, Closure}
use pymaid.Rpc.Connection.Inbound.{on_message}
use pymaid.Rpc.Connection.Pending.{IsSound}
use pymaid.Rpc.Connection.Requests.{waits}
use pymaid.Rpc.Connection.Answers.{waiting-await_next, waiting_above}
use pymaid.Server.Protocol.{MessageClass}
use pymaid.Server.Protocol.Packets.{IsSized}
use pymaid.Server.Contexts.{
  ServerMethod, Inbound, new_inbound, is_empty, recv_message, send_message, response_meta,
}
use pymaid.Server.Connection.{Server, data_received}
use pymaid.Server.Exchange.{WireFormat, IsOdd}
use pymaid.Server.Exchange.Requests.{at_rest, opened, opens, call_opens}
use pymaid.Server.Exchange.Answers.{send_message_heard}

forget-await {ℓ} :
    {A : Type ℓ} (tid : ℕ) (a : A) (t : List (ℕ × A))
    → waiting tid t ≡ none
    → forget tid (await tid a t) ≡ t
unfolding forget waiting
forget-await tid a [] h = ground arith
forget-await tid a ((i, b) ∷ t) h = elim (Bool-cases (i == tid)) [
  | inl same ↦ absurd (let f = rw same at h in cc)
  | inr differ ↦ rw differ (ap (λ l. (i, b) ∷ l) (forget-await tid a t (rw differ at h)))
]

module _ (env : Env) (laws : MessageLaws env.jspb) (wire_laws : WireLaws env.jspb) {M R : Type 0}
    (metas : MessageClass Contents) (format : WireFormat env.jspb wire_laws metas)
    (routes : List (Text × ServerMethod M)) (responses : MessageClass R)
    (sized : IsSized responses) where
  open env use {jspb, fuel}

  module _ (service name : Text) (method : Method jspb.Message) (req : Request jspb.Message)
      (cb : ℕ) (conn : Conn jspb.Message) (m : jspb.Message) (body : Bytes) (server : Server M)
      (served_by : ServerMethod M) (enough : 9 ≤ fuel) (small : conn.transmission_id < 2 ^ 32)
      (well : IsWellFormed (service ++ b'.' ∷ name)) (typed : as_message env method req ≡ ok m)
      (written : serialize (instance_of method.input_type m) ≡ ok body)
      (heads : (head : Bytes)
        → serialize (
            instance_of
              (context_type jspb)
              (request_message jspb laws (service ++ b'.' ∷ name) conn.transmission_id))
          ≡ ok head
        → length head < 2 ^ 16)
      (short : length body ≤ 8192) (answer : same_type method.output_type (void_type jspb) ≡ false)
      (live : conn.is_closed ≡ false) (open_socket : conn.ready ≡ true) (sound : IsSound conn)
      (idle : server.read_buffer ≡ [])
      (served : find (service ++ b'.' ∷ name) routes ≡ some served_by)
      (fresh : waiting conn.transmission_id server.work.contexts ≡ none) where
    -- A call with an odd number and a request of some bytes: it sends a packet from which the server opens
    -- a context, whose method gets the request. The response that the method sends then calls the callback
    -- with no error and the message, as the client reads it, and the connection is as it was, but for
    -- the number of the next call. (The server has no bytes left over, no context under the number, and a
    -- route for the method; contexts, request and response fit their packets.)
    pub call_answered :
        (request : M) (response : R) (last : Bool) (v : Value)
        (hear : Value → Bytes → Result (List Event))
        → IsOdd conn.transmission_id
        → is_empty body ≡ false
        → (served_by.request_class).from_string body ≡ ok request
        → served_by.void_response ≡ false
        → served_by.flags < 2 ^ 30
        → length (
            metas.serialize_to_string (
              response_meta conn.transmission_id served_by.flags
                (last || not served_by.server_streaming)))
          < 2 ^ 16
        → length (responses.serialize_to_string response) < 2 ^ 16
        → deserialize fuel method.output_type (responses.serialize_to_string response) ≡ ok v
        → let context = opened served_by conn.transmission_id in
          (packet reply : Bytes) × (received done : Inbound M) × (call env service name method req
              (some cb)
              conn
            ≡ waits method cb packet conn)
          × (data_received metas routes false packet server
              ≡ ok (at_rest (opens served_by conn.transmission_id (some request ∷ []) server.work)))
          × (recv_message (context (some request ∷ [])) ≡ ok (some (some request, received)))
          × (send_message metas responses response last received ≡ ok (some reply, done))
          × (on_message env hear reply (waits method cb packet conn).conn ≡ record {
            result = ok tt;
            conn = record conn { transmission_id = conn.transmission_id + 1 };
            events = called cb nothing (value v) ∷ [];
          })
    unfolding new_inbound
    call_answered request response last v hear odd full parsed answers flags head_short body_short
          reads =
        let ((packet, calls, serves), receives) =
          call_opens env laws wire_laws metas format routes service name method req cb conn m body
            server served_by enough small well typed written heads short answer live open_socket
            idle served fresh request odd full parsed in
        let received : Inbound M = record (opened served_by conn.transmission_id []) {
          request_received_count = 1;
        } in
        let waiting_conn = (waits method cb packet conn).conn in
        let closure : Closure jspb.Message = record { output_type = method.output_type; cb = cb } in
        let (reply, done, sends, hears) =
          send_message_heard env laws wire_laws metas format received waiting_conn enough small
            flags responses sized response last head_short body_short answers refl hear closure v
            (waiting-await_next conn closure sound) reads in
        let free = forget-await conn.transmission_id closure conn.transmissions (
          waiting_above 0 conn.transmission_id conn.transmission_id conn.transmissions sound
            (omega arith)) in
        (packet, reply, received, done, calls, serves, receives, sends, hears ∙ rw free)
