-- ===== src/Rpc/Connection/Inbound.antt =====
-- `onmessage` of a `WSConnection` of plugin/js/pymaid.js.
use pymaid.Prelude.{
  ℕ, List, [], ◌∷◌, Bytes, codes, if◌then◌else◌, Option, none, some, Result, ok, throw, unfinished,
}
use pymaid.Js.{Value, num, is_number, property}
use pymaid.Parser.{unpack, Packet}
use pymaid.Pb.Context.{response_packet}
use pymaid.Api.{context_type, deserialize}
use pymaid.Rpc.Env.{Env, Argument, Event, called}
use pymaid.Rpc.Connection.{Closure, Conn, Step, waiting, forget, deliver}

module _ (env : Env) where
  open env use {jspb, fuel, json_parse}

  -- `onmessage`, for a response: its number is looked up, taken from the table, and its closure called.
  abbrev pub number_of : Value → Option ℕ
  number_of (num n) = some n
  number_of _ = none

  abbrev pub waiting_value :
      Value → List (ℕ × Closure jspb.Message) → Option (ℕ × Closure jspb.Message)
  waiting_value v t = elim (number_of v) [
    | none ↦ none
    | some tid ↦ elim (waiting tid t) [ none ↦ none | some c ↦ some (tid, c) ]
  ]

  abbrev pub answered : Conn jspb.Message → ℕ → Result (Argument × Argument) → Step jspb.Message
  answered conn cb (ok args) = record {
    result = ok tt;
    conn = conn;
    events = called cb args.0 args.1 ∷ [];
  }
  answered conn cb (throw e) = record { result = throw e; conn = conn; events = [] }
  answered conn cb unfinished = record { result = unfinished; conn = conn; events = [] }

  unfoldable pub on_response : Value → Bytes → Conn jspb.Message → Step jspb.Message
  unfolding waiting forget
  on_response context content conn =
      elim (waiting_value (property (codes "transmission_id") context) conn.transmissions) [
        | none ↦ record { result = ok tt; conn = conn; events = [] }
        | some (tid, closure) ↦
            answered (record conn { transmissions = forget tid conn.transmissions }) closure.cb
              (deliver env closure context content)
      ]

  -- `listen` is the listener of the connection's channel.
  abbrev pub heard : Conn jspb.Message → Result (List Event) → Step jspb.Message
  heard conn (ok events) = record { result = ok tt; conn = conn; events = events }
  heard conn (throw e) = record { result = throw e; conn = conn; events = [] }
  heard conn unfinished = record { result = unfinished; conn = conn; events = [] }

  abbrev pub on_packet :
      (Value → Bytes → Result (List Event)) → Conn jspb.Message → Result Packet → Step jspb.Message
  on_packet listen conn (ok packet) =
      if is_number response_packet (property (codes "packet_type") packet.context)
      then on_response packet.context packet.content conn
      else if conn.attached
      then heard conn (listen packet.context packet.content)
      else record { result = ok tt; conn = conn; events = [] }
  on_packet listen conn (throw e) = record { result = throw e; conn = conn; events = [] }
  on_packet listen conn unfinished = record { result = unfinished; conn = conn; events = [] }

  unfoldable pub on_message :
      (Value → Bytes → Result (List Event)) → Bytes → Conn jspb.Message → Step jspb.Message
  unfolding on_response
  on_message listen bytes conn =
      on_packet listen conn (unpack (deserialize fuel (context_type jspb)) bytes)
