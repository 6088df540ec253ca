-- ===== src/Tests/Exchanges.antt =====
-- An exchange of the echo service.
use pymaid.Prelude.{
  ◌≡◌, refl, sym, ap, ◌∙◌, ◌<◌, ◌^◌, [], ◌∷◌, Bytes, some, none, false, Result, ok, throw,
  unfinished, arith, length,
}
use pymaid.Js.{num}
use pymaid.Jspb.Reference.{reference, reference_messages, reference_wire}
use pymaid.Jspb.Reference.Wire.{encode, encode_one, chars, write_number, write_text, write_flag}
use pymaid.Parser.{pack, unpack}
use pymaid.Pb.Context
use pymaid.Pb.Context.Contents
use pymaid.Pb.Context.Contents.{Contents, InRange}
use pymaid.Api.{context_type, serialize, deserialize, instance_of}
use pymaid.Api.Contexts.{context_object, request_contents, request_message}
use pymaid.Rpc.Env.{sent, called, nothing, value}
use pymaid.Rpc.Connection.{waiting}
use pymaid.Rpc.Connection.Inbound.{on_message}
use pymaid.Rpc.Connection.Pending.{IsSound}
use pymaid.Examples.Echo
use pymaid.Examples.Echo.Calls.{
  message_object, echo_message, echo_name, echo_step, echo_call, echo_exchange,
}
use pymaid.Tests.Data.{env, conn}
use pymaid.Tests.Examples.{hello, hello-IsWellFormed}

pub conn-IsSound : IsSound conn
conn-IsSound = (omega arith, omega arith)

unfoldable pub from_ok : Result Bytes → Bytes
from_ok (ok bytes) = bytes
from_ok (throw e) = []
from_ok unfinished = []

call_head :
    serialize (
      instance_of
        (context_type reference)
        (request_message reference reference_messages echo_name 7))
    ≡ ok (encode (Contents.wire (request_contents echo_name 7)))
unfolding serialize Context.serialize_binary Context.serialize_binary_to_writer encode encode_one
    chars write_number write_text write_flag
call_head = refl

pub call_head_short :
    (head : Bytes)
    → serialize (
        instance_of
          (context_type reference)
          (request_message reference reference_messages echo_name 7))
      ≡ ok head
    → length head < 2 ^ 16
unfolding from_ok encode encode_one chars
call_head_short head e = rw (ap from_ok (sym e ∙ call_head)) (omega arith)

-- The body of a message with the text `hello`.
abbrev pub body : Bytes
body = 1 ∷ 3 ∷ 105 ∷ 102 ∷ 109 ∷ 109 ∷ 112 ∷ 0 ∷ []

pub body_of_hello :
    serialize (
      instance_of
        (Echo.message_type reference)
        (echo_message env reference_messages reference_wire hello))
    ≡ ok body
unfolding serialize Echo.serialize_binary Echo.serialize_binary_to_writer encode encode_one chars
    write_text
body_of_hello = refl

body_short :
    (bytes : Bytes)
    → serialize (
        instance_of
          (Echo.message_type reference)
          (echo_message env reference_messages reference_wire hello))
      ≡ ok bytes
    → length bytes < 2 ^ 16
unfolding from_ok
body_short bytes e = rw (ap from_ok (sym e ∙ body_of_hello)) (omega arith)

echo_call_example :
    let step = echo_step env reference_messages reference_wire hello 41 conn in
    (packet body : Bytes) × (step.events ≡ sent 3 packet ∷ [])
    × (unpack (deserialize 16 (context_type reference)) packet
        ≡ ok (record { context = context_object (request_contents echo_name 7); content = body }))
    × (deserialize 16 (Echo.message_type reference) body ≡ ok (message_object hello))
    × (waiting 7 step.conn.transmissions
        ≡ some (record { output_type = Echo.message_type reference; cb = 41 }))
echo_call_example =
    echo_call env reference_messages reference_wire conn hello 41 (omega arith) (omega arith)
      conn-IsSound refl refl call_head_short body_short hello-IsWellFormed

abbrev answer : Contents
answer = record {
  transmission_id = 7;
  packet_type = 2;
  packet_flags = 0;
  priority = 0;
  service_method = [];
  is_cancelled = false;
  is_failed = false;
}

answer-InRange : InRange answer
answer-InRange = record {
  transmission_id = omega arith;
  packet_type = omega arith;
  packet_flags = omega arith;
  priority = omega arith;
  service_method = tt;
}

abbrev answer_message : reference.Message
answer_message = reference.set_field (reference.set_field reference.initialize 1 (num 7)) 2 (num 2)

answer-Holds : Contents.Holds reference answer_message answer
answer-Holds = record {
  transmission_id = refl;
  packet_type = refl;
  packet_flags = refl;
  priority = refl;
  service_method = refl;
  is_cancelled = refl;
  is_failed = refl;
}

abbrev answer_head : Bytes
answer_head = 1 ∷ 0 ∷ 7 ∷ 2 ∷ 1 ∷ 2 ∷ []

head_of_answer : serialize (instance_of (context_type reference) answer_message) ≡ ok answer_head
unfolding serialize Context.serialize_binary Context.serialize_binary_to_writer encode encode_one
    chars write_number write_text write_flag
head_of_answer = refl

echo_exchange_example :
    let step =
      on_message env
        (λ c b. ok [])
        (pack answer_head body)
        (echo_step env reference_messages reference_wire hello 41 conn).conn in
    (step.result ≡ ok tt)
    × (step.events ≡ called 41 nothing (value (message_object hello)) ∷ [])
    × (waiting 7 step.conn.transmissions ≡ none)
echo_exchange_example =
    echo_exchange env reference_messages reference_wire conn hello 41 (omega arith) (omega arith)
      conn-IsSound refl refl call_head_short body_short (λ c b. ok []) answer answer_message
      (echo_message env reference_messages reference_wire hello) hello answer_head body answer-Holds
      answer-InRange refl refl refl refl hello-IsWellFormed hello-IsWellFormed head_of_answer
      (omega arith) body_of_hello (omega arith)
