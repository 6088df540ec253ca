-- ===== src/Rpc/Connection/Requests.antt =====
-- What the server reads of a request.
use pymaid.Prelude.{
  ℕ, ◌+◌, ◌≤◌, ◌<◌, ◌^◌, ◌≡◌, ◌++◌, [], ◌∷◌, Text, Bytes, length, IsWellFormed, true, false, some,
  ok,
}
use pymaid.Jspb.Laws.{MessageLaws, WireLaws}
use pymaid.Parser.{pack, unpack}
use pymaid.Parser.RoundTrip.{unpack-pack_small}
use pymaid.Pb.Context.Contents.{wire}
use pymaid.Pb.Context.Writing.{serialize_binary-wire}
use pymaid.Api.{context_type, serialize, deserialize, instance_of, same_type, void_type}
use pymaid.Api.Contexts.{
  request_data, request_message, request_contents, request_message-Holds, request_contents-InRange,
  instantiate-request_data, context_object, deserialize-wire_context,
}
use pymaid.Rpc.Env.{Env, Method, sent}
use pymaid.Rpc.Connection.{Conn, Step, Request, packet_of, as_message, await, call, request}

-- What a call of a method with a response leaves, if it sends `packet`.
abbrev pub waits : {M : Type 0} → Method M → ℕ → Bytes → Conn M → Step M
waits method cb packet conn = record {
  result = ok tt;
  conn = record conn {
    transmission_id = conn.transmission_id + 1;
    transmissions =
        await conn.transmission_id (record { output_type = method.output_type; cb = cb })
          conn.transmissions;
  };
  events = sent conn.connid packet ∷ [];
}

module _ (env : Env) (laws : MessageLaws env.jspb) (wire_laws : WireLaws env.jspb) where
  open env use {jspb, fuel}

  -- The head of a request's packet, in which the receiver reads the fields of its Context.
  abbrev pub Heads : Text → ℕ → Bytes → Type 0
  Heads service_method tid head =
      wire_laws.Pending (jspb.new_reader head) (wire (request_contents service_method tid))
      × (length (wire (request_contents service_method tid)) ≤ length head)

  -- The packet of a request, where its body is ready.
  request_packs :
      (method : Method jspb.Message) (service_method : Text) (tid : ℕ) (req : Request jspb.Message)
      (m : jspb.Message) (body : Bytes)
      → 9 ≤ fuel
      → tid < 2 ^ 32
      → IsWellFormed service_method
      → as_message env method req ≡ ok m
      → serialize (instance_of method.input_type m) ≡ ok body
      → (head : Bytes) × (serialize
            (instance_of (context_type jspb) (request_message jspb laws service_method tid))
          ≡ ok head)
        × Heads service_method tid head
        × (packet_of env method (request_data service_method tid) req ≡ ok (pack head body))
  unfolding packet_of serialize
  request_packs method s tid req m body enough small well typed written =
      let (head, e, p, fits) =
        serialize_binary-wire jspb wire_laws (request_message jspb laws s tid)
          (request_contents s tid) (request_message-Holds jspb laws s tid)
          (request_contents-InRange s tid small well) in
      (
        head,
        e,
        (p, fits),
        rw (instantiate-request_data jspb laws fuel s tid enough, typed, e, written),
      )

  pub call_packs :
      (service name : Text) (method : Method jspb.Message) (req : Request jspb.Message) (cb : ℕ)
      (conn : Conn jspb.Message) (m : jspb.Message) (body : Bytes)
      → 9 ≤ fuel
      → conn.transmission_id < 2 ^ 32
      → IsWellFormed (service ++ b'.' ∷ name)
      → as_message env method req ≡ ok m
      → serialize (instance_of method.input_type m) ≡ ok body
      → same_type method.output_type (void_type jspb) ≡ false
      → conn.is_closed ≡ false
      → conn.ready ≡ true
      → (head : Bytes) × (serialize (
            instance_of
              (context_type jspb)
              (request_message jspb laws (service ++ b'.' ∷ name) conn.transmission_id))
          ≡ ok head)
        × Heads (service ++ b'.' ∷ name) conn.transmission_id head
        × (call env service name method req (some cb) conn ≡ waits method cb (pack head body) conn)
  unfolding call request
  call_packs service name method req cb conn m body enough small well typed written answer live
        open_socket =
      let (head, written_head, heads, e) =
        request_packs method (service ++ b'.' ∷ name) conn.transmission_id req m body enough small
          well typed written in
      (head, written_head, heads, simp (live, answer, e, open_socket))

  -- A call of a method with a response, on an open connection: it takes the next number, waits for
  -- the response under it, and sends one packet. The receiver unpacks that to a request Context with
  -- this number and the name `service.name`, and to the bytes of the message. (The message has to
  -- serialize, the sizes to fit the header, the number to fit 32 bits.)
  pub call_sends :
      (service name : Text) (method : Method jspb.Message) (req : Request jspb.Message) (cb : ℕ)
      (conn : Conn jspb.Message) (m : jspb.Message) (body : Bytes)
      → 9 ≤ fuel
      → conn.transmission_id < 2 ^ 32
      → IsWellFormed (service ++ b'.' ∷ name)
      → as_message env method req ≡ ok m
      → serialize (instance_of method.input_type m) ≡ ok body
      → length body < 2 ^ 16
      → ((head : Bytes)
          → serialize (
              instance_of
                (context_type jspb)
                (request_message jspb laws (service ++ b'.' ∷ name) conn.transmission_id))
            ≡ ok head
          → length head < 2 ^ 16)
      → same_type method.output_type (void_type jspb) ≡ false
      → conn.is_closed ≡ false
      → conn.ready ≡ true
      → (packet : Bytes) × (call env service name method req (some cb) conn ≡ record {
        result = ok tt;
        conn = record conn {
          transmission_id = conn.transmission_id + 1;
          transmissions =
              await conn.transmission_id
                (record { output_type = method.output_type; cb = cb })
                conn.transmissions;
        };
        events = sent conn.connid packet ∷ [];
      })
        × (unpack (deserialize fuel (context_type jspb)) packet
            ≡ ok (record {
              context =
                  context_object (request_contents (service ++ b'.' ∷ name) conn.transmission_id);
              content = body;
            }))
  call_sends service name method req cb conn m body enough small well typed written short heads
        answer live open_socket =
      let (head, e, (p, fits), called) =
        call_packs service name method req cb conn m body enough small well typed written answer
          live open_socket in
      (
        pack head body,
        called,
        rw (
          unpack-pack_small (deserialize fuel (context_type jspb)) head body (heads head e) short,
          deserialize-wire_context jspb laws wire_laws fuel head
              (request_contents (service ++ b'.' ∷ name) conn.transmission_id) enough p fits,
        ),
      )
