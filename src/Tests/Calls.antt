-- ===== src/Tests/Calls.antt =====
-- Messages, calls and their answers.
use pymaid.Prelude.{
  eq_text, ends_with, sym, ◌∙◌, unfinished, ℕ, ◌≡◌, refl, ap, [], ◌∷◌, Bytes, codes, ok, throw,
  Result, arith, some, none, if◌then◌else◌, ◌==◌,
}
use pymaid.Js.{num, str, get, put, keys, has_own}
use pymaid.Names.Defs.{underscore, convert, underscore_key, lower}
use pymaid.Convert.Loop.{loop}
use pymaid.Convert.Deserialize.{deserialize_transform, deserialize_body}
use pymaid.Pb.Wire.{read_loop}
use pymaid.Jspb.Reference.{reference, reference_messages, reference_wire}
use pymaid.Jspb.Reference.Wire.{
  encode, encode_one, chars, write_number, write_text, write_flag, decode, next,
}
use pymaid.Parser.{pack, unpack}
use pymaid.Pb.Context
use pymaid.Pb.Context.Contents
use pymaid.Pb.Context.Contents.{Contents, InRange}
use pymaid.Pb.Context.RoundTrip.{deserialize_binary-serialize_binary}
use pymaid.Pb.ErrorMessage
use pymaid.Pb.ErrorMessage.RoundTrip
use pymaid.Pb.ErrorMessage.RoundTrip.{deserialize_binary-serialize_binary_error}
use pymaid.Api.{context_type, serialize, deserialize, instance_of}
use pymaid.Api.Contexts.{
  context_object, request_contents, request_message, request_message-Holds,
  deserialize-serialize_context,
}
use pymaid.Api.Errors.{error_object}
use pymaid.Rpc.Env.{value, nothing, called, sent}
use pymaid.Rpc.Connection.{call, message, await, waiting, deliver}
use pymaid.Rpc.Connection.Inbound.{on_message}
use pymaid.Rpc.Connection.Requests.{call_sends}
use pymaid.Rpc.Connection.Answers.{on_message_response}
use pymaid.Tests.Data.{
  env, name, name_IsWellFormed, cells, method, closure, conn, response, response_message,
}

abbrev contents : Contents
contents = request_contents name 5

abbrev request : reference.Message
request = request_message reference reference_messages name 5

contents-InRange : InRange contents
contents-InRange = record {
  transmission_id = omega arith;
  packet_type = omega arith;
  packet_flags = omega arith;
  priority = omega arith;
  service_method = name_IsWellFormed;
}

response-InRange : InRange response
response-InRange = record {
  transmission_id = omega arith;
  packet_type = omega arith;
  packet_flags = omega arith;
  priority = omega arith;
  service_method = tt;
}

response-Holds : Contents.Holds reference response_message response
response-Holds = record {
  transmission_id = refl;
  packet_type = refl;
  packet_flags = refl;
  priority = refl;
  service_method = refl;
  is_cancelled = refl;
  is_failed = refl;
}

deserialize_binary-serialize_binary_example :
    (bytes : Bytes) × (m' : reference.Message) × (Context.serialize_binary reference request
      ≡ ok bytes)
    × (Context.deserialize_binary reference bytes ≡ ok m')
    × Contents.Holds reference m' contents
deserialize_binary-serialize_binary_example =
    deserialize_binary-serialize_binary reference reference_messages reference_wire request contents
      (request_message-Holds reference reference_messages name 5) contents-InRange

deserialize-serialize_context_example :
    (bytes : Bytes) × (serialize (instance_of (context_type reference) request) ≡ ok bytes)
    × (deserialize 16 (context_type reference) bytes ≡ ok (context_object contents))
deserialize-serialize_context_example =
    deserialize-serialize_context reference reference_messages reference_wire 16 request contents
      (omega arith) (request_message-Holds reference reference_messages name 5) contents-InRange

abbrev failure : reference.Message
failure = reference.set_field (reference.set_field cells 1 (num 400)) 2 (str name)

failure-Holds : RoundTrip.Holds reference failure (num 400) (str name) (str [])
failure-Holds = record { code = refl; message = refl; details = refl }

deserialize_binary-serialize_binary_error_example :
    (bytes : Bytes) × (m' : reference.Message) × (ErrorMessage.serialize_binary reference failure
      ≡ ok bytes)
    × (ErrorMessage.deserialize_binary reference bytes ≡ ok m')
    × RoundTrip.Holds reference m' (str []) (str name) (str [])
deserialize_binary-serialize_binary_error_example =
    deserialize_binary-serialize_binary_error reference reference_wire reference_messages failure
      (num 400) (str name) (str []) failure-Holds tt name_IsWellFormed tt

-- What a call of `Echo.echo` under the number 7 is answered with, and sends.
abbrev head_of_request : Bytes
head_of_request = encode (Contents.wire (request_contents name 7))

from_ok : Result Bytes → Bytes
from_ok (ok bytes) = bytes
from_ok (throw e) = []
from_ok unfinished = []

request_head :
    serialize
      (instance_of (context_type reference) (request_message reference reference_messages name 7))
    ≡ ok head_of_request
unfolding serialize Context.serialize_binary Context.serialize_binary_to_writer encode encode_one
    chars write_number write_text write_flag
request_head = refl

call_sends_example :
    (packet : Bytes) × (call env (codes "Echo") (codes "echo") method (message cells) (some 41) conn
      ≡ record {
        result = ok tt;
        conn = record conn {
          transmission_id = 8;
          transmissions =
              await 7 (record { output_type = method.output_type; cb = 41 }) conn.transmissions;
        };
        events = sent 3 packet ∷ [];
      })
    × (unpack (deserialize 16 (context_type reference)) packet
        ≡ ok (record { context = context_object (request_contents name 7); content = [] }))
unfolding serialize ErrorMessage.serialize_binary ErrorMessage.serialize_binary_to_writer from_ok
    encode encode_one chars
call_sends_example =
    call_sends env reference_messages reference_wire (codes "Echo") (codes "echo") method
      (message cells) 41 conn cells [] (omega arith) (omega arith) name_IsWellFormed refl refl
      (omega arith) (λ head e. rw (ap from_ok (sym e ∙ request_head)) (omega arith)) refl refl refl

head_of_response :
    serialize (instance_of (context_type reference) response_message)
    ≡ ok (1 ∷ 0 ∷ 5 ∷ 2 ∷ 1 ∷ 2 ∷ [])
unfolding serialize Context.serialize_binary Context.serialize_binary_to_writer encode encode_one
    chars write_number write_text write_flag
head_of_response = refl

answer :
    deliver env closure (context_object response) [] ≡ ok (nothing, value (error_object [] [] []))
unfolding deliver get eq_text deserialize ErrorMessage.deserialize_binary
    ErrorMessage.deserialize_binary_from_reader ErrorMessage.to_object read_loop decode next
    underscore convert underscore_key put deserialize_transform loop deserialize_body keys has_own
    ends_with lower
answer = refl

on_message_response_example :
    let s = on_message env (λ c b. ok []) (pack (1 ∷ 0 ∷ 5 ∷ 2 ∷ 1 ∷ 2 ∷ []) []) conn in
    (s.result ≡ ok tt)
    × (s.events ≡ called 40 nothing (value (error_object [] [] [])) ∷ [])
    × ((k : ℕ)
        → waiting k s.conn.transmissions ≡ (if k == 5 then none else waiting k conn.transmissions))
unfolding waiting
on_message_response_example =
    on_message_response env reference_messages reference_wire (λ c b. ok []) response_message
      response (1 ∷ 0 ∷ 5 ∷ 2 ∷ 1 ∷ 2 ∷ []) [] conn closure nothing (value (error_object [] [] []))
      (omega arith) response-Holds response-InRange refl head_of_response (omega arith)
      (omega arith) (omega arith, omega arith) refl answer
