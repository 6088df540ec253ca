-- ===== src/Tests/Streams.antt =====
-- Packets in a stream of bytes, read by the server.
use pymaid.Prelude.{
  All, ◌≡◌, refl, ◌++◌, [], ◌∷◌, Bytes, length, false, some, ok, arith, Ends, take, drop, eq_text,
}
use pymaid.Jspb.Reference.Wire.{
  encode, after_kind, at_start, encode_one, write_number, write_text, write_flag,
  decode as decode_wire,
}
use pymaid.Jspb.Reference.Wire
use pymaid.Parser.{pack}
use pymaid.Api.Contexts.{request_contents}
use pymaid.Rpc.Listener.{find}
use pymaid.Rpc.Connection.{waiting}
use pymaid.Examples.Echo.Calls.{echo_name}
use pymaid.Server.Protocol
use pymaid.Parser.Buffer.{set_uint16}
use pymaid.Server.Protocol.{MessageClass, feed_data, decode}
use pymaid.Server.Protocol.Packets.{feed_data-packed, packed, Takes}
use pymaid.Server.Protocol.Ending.{feed_data-Ends, Consumes}
use pymaid.Server.Contexts.{renew, feed_message, new_inbound_context, new_inbound}
use pymaid.Server.Connection.{data_received, receive, feed_one, feed_messages}
use pymaid.Server.Connection.Chunks.{receive-concat, concat}
use pymaid.Server.Exchange.Reference.{reference_contexts, at, contents_of}
use pymaid.Server.Exchange.Requests.{at_rest, opens}
use pymaid.Tests.Examples.{hello}
use pymaid.Tests.Exchanges.{body}
use pymaid.Tests.Server.{echo_served, routes, idle_work, head_of, packets}

-- The packet of a call, in two pieces.
abbrev whole : Bytes
whole = pack (head_of 7) body

abbrev first : Bytes
first = take 5 whole

abbrev second : Bytes
second = drop 5 whole

taken_whole :
    data_received reference_contexts routes false (concat (first ∷ second ∷ [])) (at_rest idle_work)
    ≡ ok (at_rest (opens echo_served 7 (some hello ∷ []) idle_work))
unfolding data_received feed_data feed_messages feed_one decode pack set_uint16 encode encode_one
    Wire.chars contents_of at decode_wire after_kind find eq_text waiting new_inbound_context
    feed_message renew new_inbound
taken_whole = refl

receive-concat_example :
    receive reference_contexts routes false (first ∷ second ∷ []) (at_rest idle_work)
    ≡ ok (at_rest (opens echo_served 7 (some hello ∷ []) idle_work))
receive-concat_example =
    receive-concat reference_contexts routes false first (second ∷ []) (at_rest idle_work)
      (at_rest (opens echo_served 7 (some hello ∷ []) idle_work)) taken_whole

-- The first half of a header.
abbrev rest : Bytes
rest = 0 ∷ 7 ∷ []

short_rest : decode reference_contexts rest ≡ ok Protocol.incomplete
unfolding decode
short_rest = refl

takes : All (Takes reference_contexts) packets
unfolding contents_of decode_wire encode encode_one after_kind Wire.chars at
takes = ((omega arith, omega arith, refl), ((omega arith, omega arith, refl), tt))

feed_data-packed_example :
    feed_data reference_contexts (packed reference_contexts packets ++ rest)
    ≡ ok (
      length (packed reference_contexts packets),
      (request_contents echo_name 7, body) ∷ (request_contents echo_name 9, []) ∷ [],
    )
feed_data-packed_example = feed_data-packed reference_contexts packets rest takes short_rest

feed_data-Ends_example :
    Ends
      (Consumes reference_contexts (λ bytes. tt) (whole ++ rest))
      (feed_data reference_contexts (whole ++ rest))
feed_data-Ends_example = feed_data-Ends reference_contexts (λ bytes. tt) (whole ++ rest)
