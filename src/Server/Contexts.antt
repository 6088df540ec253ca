-- ===== src/Server/Contexts.antt =====
-- `PBInboundContext` and `ContextManager` of pymaid/rpc/context.py and pymaid/rpc/pb/context.py: the calls
-- that a connection of the server has open. `M` are the messages of the services.
use pymaid.Prelude.{
  ℕ, ◌+◌, ◌/◌, ◌%◌, ◌++◌, ◌&&◌, ◌||◌, Bool, true, false, not, List, [], ◌∷◌, Option, none, some,
  Text, Bytes, codes, ltb, ◌==◌, if◌then◌else◌, Result, ok, throw, ◌>>=◌, assertion_error,
  attribute_error, rpc_error,
}
use pymaid.Pb.Context.{request_packet, response_packet}
use pymaid.Pb.Context.Contents.{Contents}
use pymaid.Rpc.Connection.{forget, await}
use pymaid.Server.Protocol.{MessageClass, encode}

-- A method that is served: how a request is parsed, and the options of its type.
pub record ServerMethod (M : Type 0) : Type 0 where
  pub full_name : Text
  pub client_streaming : Bool
  pub server_streaming : Bool
  pub void_response : Bool
  pub flags : ℕ
  pub request_class : MessageClass M

-- A request in the queue is none where the client has said that it ends.
pub record Inbound (M : Type 0) : Type 0 where
  pub method : ServerMethod M
  pub transmission_id : ℕ
  pub request_queue : List (Option M)
  pub request_received_count : ℕ
  pub request_fed_count : ℕ
  pub response_sent_count : ℕ
  pub is_closed : Bool
  pub sent_end_message : Bool

-- `Meta.PacketFlag.END`, and the test of it.
abbrev pub end_flag : ℕ
end_flag = 4

abbrev pub has_end : ℕ → Bool
has_end flags = flags / 4 % 2 == 1

-- `flags | END`
abbrev pub with_end : ℕ → ℕ
with_end flags = if has_end flags then flags else flags + end_flag

abbrev pub is_empty {ℓ} : {A : Type ℓ} → List A → Bool
is_empty [] = true
is_empty (x ∷ xs) = false

module _ {M : Type 0} where
  -- The constructor and `init`.
  unfoldable pub new_inbound : ServerMethod M → ℕ → Inbound M
  new_inbound method transmission_id = record {
    method = method;
    transmission_id = transmission_id;
    request_queue = [];
    request_received_count = 0;
    request_fed_count = 0;
    response_sent_count = 0;
    is_closed = false;
    sent_end_message = false;
  }

  -- `if payload: request_queue.append(request_class.FromString(payload))`
  abbrev pub with_payload : Bytes → Inbound M → Result (Inbound M)
  with_payload [] context = ok context
  with_payload (b ∷ payload) context =
      (context.method).request_class.from_string (b ∷ payload) >>= λ request.
      ok (record context { request_queue = context.request_queue ++ some request ∷ [] })

  unfoldable pub feed_message : Contents → Bytes → Inbound M → Result (Inbound M)
  feed_message meta payload context =
      if not (meta.packet_type == request_packet)
      then throw assertion_error
      else if ltb 0 context.request_fed_count && not (context.method).client_streaming
      then throw (rpc_error (codes "RPCError.MultipleRequestForUnaryMethod"))
      else (with_payload payload context >>= λ fed. ok (record fed {
        request_queue = fed.request_queue ++ (if has_end meta.packet_flags then none ∷ [] else []);
        request_fed_count = fed.request_fed_count + 1;
      }))

  -- `recv_message`: none where it waits for a request.
  unfoldable pub recv_message : Inbound M → Result (Option (Option M × Inbound M))
  recv_message context =
      if ltb 0 context.request_received_count && not (context.method).client_streaming
      then throw (rpc_error (codes "RPCError.RPCRequestReceived"))
      else ok (elim context.request_queue [
        | [] ↦ none
        | request ∷ queue ↦ some (
          request,
          record context {
            request_queue = queue;
            request_received_count = context.request_received_count + 1;
          },
        )
      ])

  -- `new_inbound_context`, for a number that has no context: a server takes odd numbers only. `RPCError`
  -- has no `InvalidTransmissionID` to raise.
  unfoldable pub new_inbound_context :
      Bool → ServerMethod M → ℕ → List (ℕ × Inbound M) → Result (Inbound M × List (ℕ × Inbound M))
  unfolding new_inbound
  new_inbound_context initiative method transmission_id contexts =
      if not initiative && not (transmission_id % 2 == 1)
      then throw attribute_error
      else (let context = new_inbound method transmission_id in
          ok (context, await transmission_id context contexts))

  -- `contexts[tid] = context`, for a number that has one.
  unfoldable pub renew : ℕ → Inbound M → List (ℕ × Inbound M) → List (ℕ × Inbound M)
  renew tid context [] = []
  renew tid context ((i, c) ∷ t) =
      if i == tid then (i, context) ∷ t else (i, c) ∷ renew tid context t

  -- `release_context`
  unfoldable pub release_context : ℕ → List (ℕ × Inbound M) → List (ℕ × Inbound M)
  unfolding forget
  release_context tid contexts = forget tid contexts

-- The Contexts that the server sends.
abbrev pub plain_meta : Contents
plain_meta = record {
  transmission_id = 0;
  packet_type = 0;
  packet_flags = 0;
  priority = 0;
  service_method = [];
  is_cancelled = false;
  is_failed = false;
}

abbrev pub response_meta : ℕ → ℕ → Bool → Contents
response_meta transmission_id flags ends = record plain_meta {
  transmission_id = transmission_id;
  packet_type = response_packet;
  packet_flags = if ends then with_end flags else flags;
}

abbrev pub failure_meta : ℕ → ℕ → Contents
failure_meta transmission_id flags = record plain_meta {
  transmission_id = transmission_id;
  packet_flags = with_end flags;
  is_failed = true;
}

module _ {M R : Type 0} (metas : MessageClass Contents) (responses : MessageClass R) where
  -- `send_message(response, end=end)`: the packet that is written, if one is, and the context. The count
  -- of responses that were sent is tested and never raised.
  unfoldable pub send_message : R → Bool → Inbound M → Result (Option Bytes × Inbound M)
  unfolding encode
  send_message response last context =
      let method = context.method in
      let ends = last || not method.server_streaming in
      if method.void_response
      then ok (none, context)
      else if ltb 0 context.response_sent_count && not method.server_streaming
      then throw (rpc_error (codes "RPCError.RPCResponseSent"))
      else (encode metas responses (response_meta context.transmission_id method.flags ends)
            response
          >>= λ packet. ok (
            some packet,
            record context { sent_end_message = if ends then true else context.sent_end_message },
          ))

module _ {M N : Type 0} (metas : MessageClass Contents) (errors : MessageClass N) where
  -- `handle_error`: a failed Context, of no packet type, with the error's message.
  unfoldable pub handle_error : N → Inbound M → Result (Bytes × Inbound M)
  unfolding encode
  handle_error error_message context =
      encode metas errors (failure_meta context.transmission_id (context.method).flags)
        error_message
      >>= λ packet. ok (packet, record context { sent_end_message = true })

  module _ {V : Type 0} (voids : MessageClass V) where
    -- `shutdown`: the end of a stream of responses, of no packet type either.
    unfoldable pub shutdown : V → Inbound M → Result Bytes
    unfolding encode
    shutdown void context =
        encode metas voids
          (record plain_meta {
            transmission_id = context.transmission_id;
            packet_flags = with_end (context.method).flags;
          })
          void

    abbrev pub if_unsent : V → Inbound M → Result (List Bytes)
    if_unsent void context =
        if (context.method).server_streaming && not context.sent_end_message
        then (shutdown void context >>= λ packet. ok (packet ∷ []))
        else ok []

    abbrev pub tell_error : Option N → Inbound M → Result (List Bytes × Inbound M)
    tell_error none context = ok ([], context)
    tell_error (some error_message) context =
        handle_error error_message context >>= λ told. ok (told.0 ∷ [], told.1)

    -- `close(reason)`, with the message of the reason where that is an error of the library: the packets
    -- that are written, and the context. The manager releases it.
    unfoldable pub close : Option N → V → Inbound M → Result (List Bytes × Inbound M)
    unfolding handle_error shutdown
    close reason void context =
        if context.is_closed
        then ok ([], context)
        else (tell_error reason context >>= λ told. if_unsent void told.1 >>= λ ended.
            ok (told.0 ++ ended, record (told.1) { is_closed = true }))
