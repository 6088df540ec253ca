-- ===== src/Tests/Server.antt =====
-- The echo service, between the client and the server.
use pymaid.Prelude.{
  ℕ, ◌<◌, ◌^◌, ◌≡◌, refl, sym, ◌∙◌, List, [], ◌∷◌, Bytes, Text, length, false, true, some, none, ok,
  arith, codes, eq_text,
}
use pymaid.Jspb.Reference.{reference, reference_messages, reference_wire}
use pymaid.Jspb.Reference.Wire.{
  encode, after_kind, at_start, encode_one, write_number, write_text, write_flag,
  decode as decode_wire,
}
use pymaid.Jspb.Laws.{text}
use pymaid.Jspb.Reference.Wire
use pymaid.Pb.Context.Contents.{Contents, wire}
use pymaid.Api.{deserialize}
use pymaid.Api.Contexts.{request_contents}
use pymaid.Rpc.Env.{called, nothing, value}
use pymaid.Rpc.Listener.{find}
use pymaid.Rpc.Connection.{fields, Conn, call, as_message, waiting}
use pymaid.Rpc.Connection.Inbound.{on_message}
use pymaid.Rpc.Connection.Requests.{waits}
use pymaid.Examples.Echo
use pymaid.Examples.Echo.Calls.{
  message_object, echo_message, echo_name, echo_name-IsWellFormed, echo_message-text,
  instantiate-message_object, deserialize-serialize_echo,
}
use pymaid.Server.Protocol.{MessageClass}
use pymaid.Server.Contexts.{ServerMethod, Inbound, send_message, recv_message, response_meta}
use pymaid.Server.Connection.{Work, data_received}
use pymaid.Server.Exchange.Reference.{reference_contexts, reference_format, at, chars, contents_of}
use pymaid.Server.Exchange.Requests.{at_rest, opened, opens}
use pymaid.Server.Exchange.Calls.{call_answered}
use pymaid.Tests.Data.{env, conn}
use pymaid.Tests.Examples.{hello, hello-IsWellFormed}
use pymaid.Tests.Exchanges.{conn-IsSound, call_head_short, body, body_of_hello}

-- The server's class of echo messages: their texts.
abbrev pub echo_texts : MessageClass Text
echo_texts = record {
  byte_size = λ s. length (encode ((1, text s) ∷ []));
  serialize_to_string = λ s. encode ((1, text s) ∷ []);
  from_string = λ bytes. ok (chars (at 1 (decode_wire at_start bytes)));
}

abbrev pub echo_served : ServerMethod Text
echo_served = record {
  full_name = echo_name;
  client_streaming = false;
  server_streaming = false;
  void_response = false;
  flags = 0;
  request_class = echo_texts;
}

abbrev pub routes : List (Text × ServerMethod Text)
routes = (echo_name, echo_served) ∷ []

abbrev pub idle_work : Work Text
idle_work = record { contexts = []; tasks = [] }

-- Two packets, and half of a header.
abbrev pub head_of : ℕ → Bytes
head_of tid = encode (wire (request_contents echo_name tid))

abbrev pub packets : List (Bytes × Contents × Bytes)
packets =
    (head_of 7, request_contents echo_name 7, body)
    ∷ (head_of 9, request_contents echo_name 9, [])
    ∷ []

reads_head : reference_contexts.from_string (head_of 7) ≡ ok (request_contents echo_name 7)
unfolding contents_of decode_wire encode encode_one after_kind Wire.chars at
reads_head = refl

pub waits_for_none : waiting 7 idle_work.contexts ≡ none
unfolding waiting
waits_for_none = refl

pub served : find echo_name routes ≡ some echo_served
unfolding find eq_text
served = refl

pub typed :
    as_message env (Echo.echo_method reference) (fields (message_object hello))
    ≡ ok (echo_message env reference_messages reference_wire hello)
typed = instantiate-message_object env reference_messages reference_wire hello (omega arith)

parsed : echo_texts.from_string body ≡ ok hello
unfolding at decode_wire after_kind
parsed = refl

body_of_text : echo_texts.serialize_to_string hello ≡ body
unfolding encode encode_one Wire.chars
body_of_text = refl

reads_answer :
    deserialize 16 (Echo.message_type reference) (echo_texts.serialize_to_string hello)
    ≡ ok (message_object hello)
reads_answer =
    let (bytes, written, read) =
      deserialize-serialize_echo env reference_messages reference_wire
        (echo_message env reference_messages reference_wire hello) hello (omega arith)
        (echo_message-text env reference_messages reference_wire hello) hello-IsWellFormed in
    let same : bytes ≡ body = let e = sym written ∙ body_of_hello in cc in
    rw body_of_text (rw same at read)

reply_short : length (reference_contexts.serialize_to_string (response_meta 7 0 true)) < 2 ^ 16
unfolding encode encode_one Wire.chars
reply_short = omega arith

pub text_short : length (echo_texts.serialize_to_string hello) < 2 ^ 16
unfolding encode encode_one Wire.chars
text_short = omega arith

abbrev pub service : Text
service = codes "echo.EchoService"

abbrev pub name : Text
name = codes "UnaryUnaryEcho"

abbrev pub after_call : Bytes → Conn reference.Message
after_call bytes = (waits (Echo.echo_method reference) 41 bytes conn).conn

call_answered_example :
    (packet reply : Bytes) × (received done : Inbound Text) × (call env service name
        (Echo.echo_method reference)
        (fields (message_object hello))
        (some 41)
        conn
      ≡ waits (Echo.echo_method reference) 41 packet conn)
    × (data_received reference_contexts routes false packet (at_rest idle_work)
        ≡ ok (at_rest (opens echo_served 7 (some hello ∷ []) idle_work)))
    × (recv_message (opened echo_served 7 (some hello ∷ [])) ≡ ok (some (some hello, received)))
    × (send_message reference_contexts echo_texts hello false received ≡ ok (some reply, done))
    × (on_message env (λ c b. ok []) reply (after_call packet) ≡ record {
      result = ok tt;
      conn = record conn { transmission_id = 8 };
      events = called 41 nothing (value (message_object hello)) ∷ [];
    })
call_answered_example =
    call_answered env reference_messages reference_wire reference_contexts reference_format routes
      echo_texts (λ s. refl) service name (Echo.echo_method reference)
      (fields (message_object hello)) 41 conn
      (echo_message env reference_messages reference_wire hello) body (at_rest idle_work)
      echo_served (omega arith) (omega arith) echo_name-IsWellFormed typed body_of_hello
      call_head_short (omega arith) refl refl refl conn-IsSound refl served waits_for_none hello
      hello false (message_object hello) (λ c b. ok []) refl refl parsed refl (omega arith)
      reply_short text_short reads_answer
