-- ===== src/Server/Exchange/Answers.antt =====
-- What the client makes of the packets of the server.
use pymaid.Prelude.{
  ℕ, ◌≤◌, ◌<◌, ◌^◌, ◌≡◌, refl, ◌∙◌, Bool, true, false, not, List, [], ◌∷◌, Bytes, length, none,
  some, Result, ok, if◌then◌else◌, ltb, ◌||◌, arith, Bool-cases, inl, inr, eq_text,
}
use pymaid.Js.{Value, get}
use pymaid.Jspb.Laws.{MessageLaws, WireLaws}
use pymaid.Parser.{pack}
use pymaid.Pb.Context.Contents.{Contents, InRange}
use pymaid.Api.{context_type, deserialize}
use pymaid.Api.Contexts.{context_object, deserialize-wire_context}
use pymaid.Rpc.Env.{Env, Event, called, nothing, value}
use pymaid.Rpc.Listener.{Listener, listen, find, lookup_method, split_service_method}
use pymaid.Rpc.Connection.{Conn, Closure, waiting, deliver}
use pymaid.Rpc.Connection.Inbound.{on_message}
use pymaid.Rpc.Connection.Answers.{on_message-read, on_message-heard, on_response_lem, taken}
use pymaid.Server.Protocol.{MessageClass}
use pymaid.Server.Protocol.Packets.{IsSized, encode-pack}
use pymaid.Server.Contexts.{
  Inbound, with_end, response_meta, failure_meta, send_message, handle_error,
}
use pymaid.Server.Exchange.{WireFormat}

module _ (env : Env) (laws : MessageLaws env.jspb) (wire_laws : WireLaws env.jspb)
    (metas : MessageClass Contents) (format : WireFormat env.jspb wire_laws metas) where
  open env use {jspb, fuel}

  listen_nameless :
      (l : Listener jspb.Message) (d : Contents) (content : Bytes)
      → d.service_method ≡ []
      → find [] l.implementations ≡ none
      → listen env l (context_object d) content ≡ ok []
  unfolding listen lookup_method split_service_method get eq_text
  listen_nameless l d content name nameless = rw name (rw (nameless, lookup_method))

  -- The client's reading of a Context that the server wrote.
  read_meta :
      (d : Contents)
      → 9 ≤ fuel
      → InRange d
      → deserialize fuel (context_type jspb) (metas.serialize_to_string d) ≡ ok (context_object d)
  read_meta d enough range =
      let (p, fits) = format.writes d range in
      deserialize-wire_context jspb laws wire_laws fuel (metas.serialize_to_string d) d enough p
        fits

  plain_meta-InRange :
      (d : Contents)
      → d.transmission_id < 2 ^ 32
      → d.packet_type ≤ 2
      → d.packet_flags < 2 ^ 31
      → d.priority ≡ 0
      → d.service_method ≡ []
      → InRange d
  plain_meta-InRange d small kind flags priority name = record {
    transmission_id = small;
    packet_type = omega arith;
    packet_flags = flags;
    priority = omega arith;
    service_method = rw name tt;
  }

  with_end_bound : (flags : ℕ) → flags < 2 ^ 30 → with_end flags < 2 ^ 31
  with_end_bound flags h = ground arith

  module _ {M : Type 0} (context : Inbound M) (conn : Conn jspb.Message) (enough : 9 ≤ fuel)
      (small : context.transmission_id < 2 ^ 32) (flags : (context.method).flags < 2 ^ 30) where
    abbrev answer_meta : Bool → Contents
    answer_meta = response_meta context.transmission_id (context.method).flags

    answer_meta-InRange : (ends : Bool) → InRange (answer_meta ends)
    answer_meta-InRange true =
        plain_meta-InRange (answer_meta true) small (omega arith) (with_end_bound _ flags) refl refl
    answer_meta-InRange false =
        plain_meta-InRange (answer_meta false) small (omega arith) (omega arith) refl refl

    module _ {R : Type 0} (responses : MessageClass R) (sized : IsSized responses) (response : R)
        (last : Bool)
        (head_short : length (
            metas.serialize_to_string (
              response_meta context.transmission_id
                (context.method).flags
                (last || not (context.method).server_streaming)))
          < 2 ^ 16)
        (body_short : length (responses.serialize_to_string response) < 2 ^ 16)
        (answers : (context.method).void_response ≡ false)
        (first : context.response_sent_count ≡ 0) where
      abbrev pub answer_packet : Bytes
      answer_packet =
          pack
            (metas.serialize_to_string (
              response_meta context.transmission_id (context.method).flags
                (last || not (context.method).server_streaming)))
            (responses.serialize_to_string response)

      -- A response of the server calls the callback that waits under its number, with no error and the
      -- message as the client reads it, and frees the number.
      pub send_message_heard :
          (hear : Value → Bytes → Result (List Event)) (closure : Closure jspb.Message) (v : Value)
          → waiting context.transmission_id conn.transmissions ≡ some closure
          → deserialize fuel closure.output_type (responses.serialize_to_string response) ≡ ok v
          → (packet : Bytes) × (context' : Inbound M) × (send_message metas responses response last
                context
              ≡ ok (some packet, context'))
            × (on_message env hear packet conn ≡ record {
              result = ok tt;
              conn = taken conn context.transmission_id;
              events = called closure.cb nothing (value v) ∷ [];
            })
      unfolding send_message deliver get eq_text
      send_message_heard hear closure v there reads =
          let ends = last || not (context.method).server_streaming in
          let d = answer_meta ends in
          let range = answer_meta-InRange ends in
          let none_sent : ltb 0 context.response_sent_count ≡ false = ground arith in
          (
            answer_packet,
            record context { sent_end_message = if ends then true else context.sent_end_message },
            rw (
              answers,
              none_sent,
              encode-pack metas responses format.sized sized d response head_short body_short,
            ),
            on_message-read env laws wire_laws hear d _ _ conn (read_meta d enough range) refl
                  head_short body_short
                ∙ on_response_lem env laws wire_laws d _ conn closure nothing (value v) there
                    (rw reads),
          )

    -- The failure of a method does not reach the client's callback: the packet has no packet type, so that
    -- the client takes it for a request, of a service with an empty name. The call stays open.
    pub handle_error_unheard :
        {N : Type 0} (errors : MessageClass N) (sized : IsSized errors) (error_message : N)
        (l : Listener jspb.Message)
        → length (
            metas.serialize_to_string (failure_meta context.transmission_id (context.method).flags))
          < 2 ^ 16
        → length (errors.serialize_to_string error_message) < 2 ^ 16
        → find [] l.implementations ≡ none
        → (packet : Bytes) × (context' : Inbound M) × (handle_error metas errors error_message
              context
            ≡ ok (packet, context'))
          × (on_message env (listen env l) packet conn
              ≡ record { result = ok tt; conn = conn; events = [] })
    unfolding handle_error
    handle_error_unheard errors sized error_message l head_short short nameless =
        let d = failure_meta context.transmission_id (context.method).flags in
        let range = plain_meta-InRange d small (omega arith) (with_end_bound _ flags) refl refl in
        (
          pack (metas.serialize_to_string d) (errors.serialize_to_string error_message),
          record context { sent_end_message = true },
          rw (encode-pack metas errors format.sized sized d error_message head_short short),
          on_message-heard env laws wire_laws (listen env l) d _ _ conn (read_meta d enough range)
                refl head_short short
              ∙ elim (Bool-cases conn.attached) [
                | inl there ↦ rw (
                  there,
                  listen_nameless l d (errors.serialize_to_string error_message) refl nameless,
                )
                | inr gone ↦ rw gone
              ],
        )
