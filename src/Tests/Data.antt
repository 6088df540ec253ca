-- ===== src/Tests/Data.antt =====
-- The data of the tests.
use pymaid.Prelude.{arith, IsWellFormed, [], ◌∷◌, Text, codes, false, true, some, none, ok}
use pymaid.Js.{num}
use pymaid.Jspb.Reference.{reference}
use pymaid.Pb.Context.Contents.{Contents}
use pymaid.Api.{error_message_type}
use pymaid.Rpc.Env.{Env, Method}
use pymaid.Rpc.Connection.{Conn, Closure}
use pymaid.Rpc.Channel.{World}

abbrev pub env : Env
env = record { jspb = reference; json_parse = λ v. ok v; fuel = 16 }

abbrev pub name : Text
name = codes "Echo.echo"

pub name_IsWellFormed : IsWellFormed name
name_IsWellFormed = ground arith

abbrev pub cells : reference.Message
cells = reference.initialize

-- A method whose request and response are ErrorMessages.
abbrev pub method : Method reference.Message
method = record {
  input_type = error_message_type reference;
  output_type = error_message_type reference;
  label = codes "echo";
}

abbrev pub closure : Closure reference.Message
closure = record { output_type = error_message_type reference; cb = 40 }

-- An open connection that waits for the response with the number 5.
abbrev pub conn : Conn reference.Message
conn = record {
  connid = 3;
  address = codes "ws://a:1/";
  is_closed = false;
  ready = true;
  attached = true;
  transmission_id = 7;
  transmissions = (5, closure) ∷ [];
}

abbrev pub response : Contents
response = record {
  transmission_id = 5;
  packet_type = 2;
  packet_flags = 0;
  priority = 0;
  service_method = [];
  is_cancelled = false;
  is_failed = false;
}

abbrev pub response_message : reference.Message
response_message =
    reference.set_field (reference.set_field reference.initialize 1 (num 5)) 2 (num 2)

-- A channel that holds the connection 1, where the connection 0 is open too.
abbrev pub world : World reference.Message
world = record {
  conns = λ i. conn;
  next_connid = 2;
  conn = some 1;
  is_closed = false;
  stubs_conn = none;
  stubs = [];
  listener = record { implementations = [] };
}
