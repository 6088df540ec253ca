-- ===== src/Tests/Runs.antt =====
-- Runs of one connection, and messages of any bytes.
use pymaid.Prelude.{
  List, ◌≡◌, ◌≤◌, refl, sym, ap, ◌∙◌, ◌<◌, ◌^◌, [], ◌∷◌, ◌++◌, Bytes, codes, some, Result, ok,
  throw, unfinished, error, false, ℕ, arith, IsWellFormed, length, true, Ends, eq_text,
}
use pymaid.Js.{get}
use pymaid.Jspb.Reference.{reference, reference_messages, reference_wire, reference_reader}
use pymaid.Jspb.Reference.Wire.{encode, encode_one, chars, write_number, write_text, write_flag}
use pymaid.Pb.Context
use pymaid.Pb.Context.Contents
use pymaid.Pb.ErrorMessage
use pymaid.Pb.Void
use pymaid.Pb.RpcAck
use pymaid.Pb.Ending.{deserialize_binary-Ends}
use pymaid.Api.{context_type, serialize, instance_of}
use pymaid.Api.Contexts.{request_contents, request_message}
use pymaid.Rpc.Connection.{message, deliver, Conn, Closure, Step, new_connection}
use pymaid.Rpc.Connection.Cleanup.{failed_context, closing_message}
use pymaid.Rpc.Connection.Failures.{IsFailure, deliver-IsFailure}
use pymaid.Rpc.Connection.Requests.{call_sends}
use pymaid.Rpc.Connection.Ledger.{fired}
use pymaid.Rpc.Connection.Runs.{
  Turn, opens, calls, receives, closes, ends, take_turn, run_turns, asks, Trace,
}
use pymaid.Rpc.Connection.Reactions.{react_turns, close_reacting}
use pymaid.Rpc.Connection.Quiet.{returns, react_turns_lem, fired-react_turns, fired-close_reacting}
use pymaid.Rpc.Connection.Thrown.{react_turns-thrown}
use pymaid.Rpc.Env.{Event, called, ws_close, value, raw}
use pymaid.Api.Errors.{error_object}
use pymaid.Tests.Data.{env, name, name_IsWellFormed, cells, method, closure, conn}

deserialize_binary-Ends_example :
    Ends (λ m. Unit {0}) (Context.deserialize_binary reference (5 ∷ 3 ∷ 9 ∷ []))
    × Ends (λ m. Unit {0}) (ErrorMessage.deserialize_binary reference (5 ∷ 3 ∷ 9 ∷ []))
    × Ends (λ m. Unit {0}) (Void.deserialize_binary reference (5 ∷ 3 ∷ 9 ∷ []))
    × Ends (λ m. Unit {0}) (RpcAck.deserialize_binary reference (5 ∷ 3 ∷ 9 ∷ []))
deserialize_binary-Ends_example =
    deserialize_binary-Ends reference reference_reader (5 ∷ 3 ∷ 9 ∷ [])

-- An ErrorMessage whose third field, the data, is a text of one unit.
abbrev failure_bytes : Bytes
failure_bytes = 3 ∷ 3 ∷ 124 ∷ 0 ∷ []

deliver-IsFailure_example :
    Ends (IsFailure env failure_bytes) (deliver env closure (failed_context env) failure_bytes)
unfolding get eq_text
deliver-IsFailure_example =
    deliver-IsFailure env (λ v. tt) reference_messages reference_reader (omega arith) closure
      (failed_context env) failure_bytes refl

abbrev turns : List (Turn reference.Message)
turns =
    opens
    ∷ calls (codes "Echo") (codes "echo") method (message cells) (some 41)
    ∷ receives (record { implementations = [] }) (1 ∷ [])
    ∷ closes (codes "reset")
    ∷ ends (codes "lost")
    ∷ []

-- Callbacks that do nothing to the connection.
abbrev idle : Event → Conn reference.Message → Step reference.Message
idle e conn = returns conn

fired-react_turns_example :
    fired 41 (react_turns env idle turns (new_connection 3 (codes "ws://a:1/"))).events
    ≤ asks env 41 turns
fired-react_turns_example =
    fired-react_turns env idle (λ e conn. refl) 41 3 (codes "ws://a:1/") turns

-- A call on a connection that has opened.
abbrev one_call : List (Turn reference.Message)
one_call = opens ∷ calls (codes "Echo") (codes "echo") method (message cells) (some 41) ∷ []

abbrev opened_connection : Conn reference.Message
opened_connection = (take_turn env opens (new_connection 3 (codes "ws://a:1/"))).conn

first_head :
    serialize
      (instance_of (context_type reference) (request_message reference reference_messages name 0))
    ≡ ok (encode (Contents.wire (request_contents name 0)))
unfolding serialize Context.serialize_binary Context.serialize_binary_to_writer encode encode_one
    chars write_number write_text write_flag
first_head = refl

from_ok : Result Bytes → Bytes
from_ok (ok bytes) = bytes
from_ok (throw e) = []
from_ok unfinished = []

first_head_short :
    (head : Bytes)
    → serialize
        (instance_of (context_type reference) (request_message reference reference_messages name 0))
      ≡ ok head
    → length head < 2 ^ 16
unfolding from_ok encode encode_one chars
first_head_short head e = rw (ap from_ok (sym e ∙ first_head)) (omega arith)

one_call_clean : (run_turns env one_call (new_connection 3 (codes "ws://a:1/"))).clean ≡ true
unfolding run_turns take_turn new_connection serialize ErrorMessage.serialize_binary
    ErrorMessage.serialize_binary_to_writer encode encode_one chars
one_call_clean =
    let (packet, e, unpacked) =
      call_sends env reference_messages reference_wire (codes "Echo") (codes "echo") method
        (message cells) 41 opened_connection cells [] (omega arith) (omega arith) name_IsWellFormed
        refl refl (omega arith) first_head_short refl refl refl in
    rw e refl

reset_IsWellFormed : IsWellFormed (closing_message env (codes "reset"))
reset_IsWellFormed = ground arith

abbrev called_once : Trace reference.Message
called_once = react_turns env idle one_call (new_connection 3 (codes "ws://a:1/"))

called_once_clean : called_once.clean ≡ true
called_once_clean =
    rw (react_turns_lem env idle (λ e conn. refl) one_call (new_connection 3 (codes "ws://a:1/")))
      one_call_clean

fired-close_reacting_example :
    fired 41
      (called_once.events ++ (close_reacting env idle (codes "reset") called_once.conn).events)
    ≡ 1
fired-close_reacting_example =
    fired-close_reacting env idle (λ e conn. refl) reference_messages reference_wire 41 3
      (codes "ws://a:1/") (codes "reset") one_call (omega arith) reset_IsWellFormed
      called_once_clean

-- A callback that throws, on a connection with two open requests.
abbrev throwing : Event → Conn reference.Message → Step reference.Message
throwing (called cb err resp) conn = record {
  result = throw (error (codes "no"));
  conn = conn;
  events = [];
}
throwing e conn = returns conn

abbrev behind : List (ℕ × Closure reference.Message)
behind = (7, closure) ∷ []

abbrev two_open : Conn reference.Message
two_open = record conn { attached = true; transmissions = (5, closure) ∷ behind }

react_turns-thrown_example :
    (bytes bytes' : Bytes) × (react_turns env throwing
        (closes (codes "reset") ∷ ends (codes "lost") ∷ [])
        two_open
      ≡ record {
        conn = record two_open { is_closed = true };
        events =
            ws_close 3
            ∷ called 40
                (value (error_object [] (closing_message env (codes "reset")) []))
                (raw bytes)
            ∷ called 40
                (value (error_object [] (closing_message env (codes "lost")) []))
                (raw bytes')
            ∷ [];
        clean = false;
      })
react_turns-thrown_example =
    react_turns-thrown env throwing (error (codes "no")) 5 closure (λ err resp conn. refl)
      reference_messages reference_wire (λ conn. refl) conn behind (codes "reset") (codes "lost")
      (omega arith) reset_IsWellFormed (ground arith)
