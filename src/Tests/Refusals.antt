-- ===== src/Tests/Refusals.antt =====
-- Calls that the server does not answer.
use pymaid.Prelude.{
  ◌<◌, ◌^◌, ◌≡◌, refl, sym, ap, ◌∙◌, [], Bytes, Text, length, false, some, none, ok, throw,
  attribute_error, arith,
}
use pymaid.Jspb.Reference.{reference, reference_messages, reference_wire}
use pymaid.Jspb.Reference.Wire.{
  encode, after_kind, at_start, encode_one, write_number, write_text, write_flag,
  decode as decode_wire,
}
use pymaid.Jspb.Reference.Wire
use pymaid.Pb.Context.Contents.{wire}
use pymaid.Api.{serialize, context_type, instance_of}
use pymaid.Api.Contexts.{request_contents, request_message}
use pymaid.Rpc.Listener.{find, listen, Listener}
use pymaid.Rpc.Connection.{fields, Conn, call, as_message, waiting}
use pymaid.Rpc.Connection.Inbound.{on_message}
use pymaid.Rpc.Connection.Requests.{waits}
use pymaid.Examples.Echo
use pymaid.Examples.Echo.Calls.{
  message_object, echo_message, echo_name, echo_name-IsWellFormed, instantiate-message_object,
}
use pymaid.Pb.Context
use pymaid.Server.Contexts.{Inbound, recv_message, handle_error, new_inbound, failure_meta}
use pymaid.Server.Connection.{data_received}
use pymaid.Server.Exchange.Reference.{reference_contexts, reference_format, at}
use pymaid.Server.Exchange.Requests.{at_rest, opened, opens, call_refused, call_waits}
use pymaid.Server.Exchange.Answers.{handle_error_unheard}
use pymaid.Tests.Data.{env, conn}
use pymaid.Tests.Examples.{hello}
use pymaid.Tests.Exchanges.{from_ok, call_head_short, body, body_of_hello}
use pymaid.Tests.Server.{
  echo_texts, echo_served, routes, idle_work, waits_for_none, served, typed, text_short, service,
  name, after_call,
}

-- The first call of a connection.
abbrev new_conn : Conn reference.Message
new_conn = record conn { transmission_id = 0; transmissions = [] }

first_head :
    serialize (
      instance_of
        (context_type reference)
        (request_message reference reference_messages echo_name 0))
    ≡ ok (encode (wire (request_contents echo_name 0)))
unfolding serialize Context.serialize_binary Context.serialize_binary_to_writer encode encode_one
    Wire.chars write_number write_text write_flag
first_head = refl

first_head_short :
    (head : Bytes)
    → serialize (
        instance_of
          (context_type reference)
          (request_message reference reference_messages echo_name 0))
      ≡ ok head
    → length head < 2 ^ 16
unfolding from_ok encode encode_one Wire.chars
first_head_short head e = rw (ap from_ok (sym e ∙ first_head)) (omega arith)

none_wait : waiting 0 idle_work.contexts ≡ none
unfolding waiting
none_wait = refl

call_refused_example :
    (bytes : Bytes) × (call env service name
        (Echo.echo_method reference)
        (fields (message_object hello))
        (some 41)
        new_conn
      ≡ waits (Echo.echo_method reference) 41 bytes new_conn)
    × (data_received reference_contexts routes false bytes (at_rest idle_work)
        ≡ throw attribute_error)
call_refused_example =
    call_refused env reference_messages reference_wire reference_contexts reference_format routes
      service name (Echo.echo_method reference) (fields (message_object hello)) 41 new_conn
      (echo_message env reference_messages reference_wire hello) body (at_rest idle_work)
      echo_served (omega arith) (omega arith) echo_name-IsWellFormed typed body_of_hello
      first_head_short (omega arith) refl refl refl refl served none_wait refl

-- A message with an empty text.
typed_empty :
    as_message env (Echo.echo_method reference) (fields (message_object []))
    ≡ ok (echo_message env reference_messages reference_wire [])
typed_empty = instantiate-message_object env reference_messages reference_wire [] (omega arith)

empty_body :
    serialize (
      instance_of
        (Echo.message_type reference)
        (echo_message env reference_messages reference_wire []))
    ≡ ok []
unfolding serialize Echo.serialize_binary Echo.serialize_binary_to_writer encode
empty_body = refl

parsed_empty : echo_texts.from_string [] ≡ ok []
unfolding at decode_wire
parsed_empty = refl

call_waits_example :
    ((bytes : Bytes) × (call env service name
          (Echo.echo_method reference)
          (fields (message_object []))
          (some 41)
          conn
        ≡ waits (Echo.echo_method reference) 41 bytes conn)
      × (data_received reference_contexts routes false bytes (at_rest idle_work)
          ≡ ok (at_rest (opens echo_served 7 [] idle_work))))
    × (recv_message (opened echo_served 7 []) ≡ ok none)
call_waits_example =
    call_waits env reference_messages reference_wire reference_contexts reference_format routes
      service name (Echo.echo_method reference) (fields (message_object [])) 41 conn
      (echo_message env reference_messages reference_wire []) [] (at_rest idle_work) echo_served
      (omega arith) (omega arith) echo_name-IsWellFormed typed_empty empty_body call_head_short
      (omega arith) refl refl refl refl served waits_for_none [] refl refl parsed_empty

failure_short : length (reference_contexts.serialize_to_string (failure_meta 7 0)) < 2 ^ 16
unfolding encode encode_one Wire.chars
failure_short = omega arith

abbrev no_listener : Listener reference.Message
no_listener = record { implementations = [] }

nameless : find [] no_listener.implementations ≡ none
unfolding find
nameless = refl

handle_error_unheard_example :
    (bytes : Bytes) × (done : Inbound Text) × (handle_error reference_contexts echo_texts hello
        (opened echo_served 7 [])
      ≡ ok (bytes, done))
    × (on_message env (listen env no_listener) bytes (after_call [])
        ≡ record { result = ok tt; conn = after_call []; events = [] })
unfolding new_inbound
handle_error_unheard_example =
    handle_error_unheard env reference_messages reference_wire reference_contexts reference_format
      (opened echo_served 7 []) (after_call []) (omega arith) (omega arith) (omega arith) echo_texts
      (λ s. refl) hello no_listener failure_short text_short nameless
