-- ===== src/Rpc/Connection.antt =====
-- `WSConnection` of plugin/js/pymaid.js, and the rpc function that a `Stub` builds for a method.
-- Callbacks of the caller are events here, and return; what else they may do while they are called is in
-- Rpc.Connection.Reactions.
pub mod Inbound
pub mod Cleanup
pub mod Pending
pub mod Closing
pub mod Failures
pub mod Requests
pub mod Answers
pub mod Ledger
pub mod Runs
pub mod Spec
pub mod Agreement
pub mod Refinement
pub mod Reactions
pub mod Quiet
pub mod Thrown
use pymaid.Prelude.{
  ℕ, ◌+◌, Bool, true, false, not, List, [], ◌∷◌, ◌++◌, Text, Bytes, codes, ◌==◌, if◌then◌else◌,
  Option, none, some, Result, ok, throw, unfinished, error, invalid_state, ◌>>=◌, map,
}
use pymaid.Js.{Value, num, str, obj, end, field, is_truthy, is_number, property, set_property}
use pymaid.Jspb.{Jspb}
use pymaid.Parser.{pack, unpack, Packet}
use pymaid.Pb.Context.{response_packet}
use pymaid.Api.{
  MessageType, Payload, instance_of, plain, context_type, error_message_type, void_type, same_type,
  instantiate, serialize, deserialize,
}
use pymaid.Api.Contexts.{request_data, notice_data}
use pymaid.Api.Errors.{error_data}
use pymaid.Rpc.Env.{
  Env, Method, Argument, nothing, value, raw, Event, sent, ws_close, called, scheduled,
}

-- The function that waits for a response: the class of the response, and the caller's callback.
pub record Closure (Message : Type 0) : Type 0 where
  pub output_type : MessageType Message
  pub cb : ℕ

-- `ready` is false until the socket is open: a socket that connects cannot send. `attached` is false
-- once `onclose` has set the callbacks and the channel to null. The transmissions stand in the order
-- of their numbers, in which `for … in` visits them.
pub record Conn (Message : Type 0) : Type 0 where
  pub connid : ℕ
  pub address : Text
  pub is_closed : Bool
  pub ready : Bool
  pub attached : Bool
  pub transmission_id : ℕ
  pub transmissions : List (ℕ × Closure Message)

-- What is left of a call: how it ended, the connection, and what the world saw, in order.
pub record Step (Message : Type 0) : Type 0 where
  pub result : Result (Unit {0})
  pub conn : Conn Message
  pub events : List Event

-- The constructor, for the connection with the number `connid`.
unfoldable pub new_connection : {M : Type 0} → ℕ → Text → Conn M
new_connection connid address = record {
  connid = connid;
  address = address;
  is_closed = false;
  ready = false;
  attached = true;
  transmission_id = 0;
  transmissions = [];
}

-- `transmissions[tid]`
unfoldable pub waiting {ℓ} : {A : Type ℓ} → ℕ → List (ℕ × A) → Option A
waiting tid [] = none
waiting tid ((i, a) ∷ t) = if i == tid then some a else waiting tid t

-- `delete transmissions[tid]`
unfoldable pub forget {ℓ} : {A : Type ℓ} → ℕ → List (ℕ × A) → List (ℕ × A)
forget tid [] = []
forget tid ((i, a) ∷ t) = if i == tid then t else (i, a) ∷ forget tid t

-- `transmissions[tid] = a`, for a number that is the largest.
abbrev pub await {ℓ} : {A : Type ℓ} → ℕ → A → List (ℕ × A) → List (ℕ × A)
await tid a t = t ++ (tid, a) ∷ []

-- A request: a message of the method's input class, or the data of one.
pub data Request (Message : Type 0) : Type 0 where
  message : Message → Request Message
  fields : Value → Request Message

module _ (env : Env) where
  open env use {jspb, fuel, json_parse}

  -- The closure's call: the arguments that the caller's callback gets. A failure carries the raw bytes
  -- beside the error.
  abbrev pub with_details : Bytes → Value → Bool → Result (Argument × Argument)
  with_details resp err true = json_parse (property (codes "data") err) >>= λ details.
      ok (value (set_property (codes "data") details err), raw resp)
  with_details resp err false = ok (value err, raw resp)

  unfoldable pub deliver : Closure jspb.Message → Value → Bytes → Result (Argument × Argument)
  deliver closure context resp =
      let failure = deserialize fuel (error_message_type jspb) resp >>= λ err.
      with_details resp err (is_truthy (property (codes "data") err)) in
      let success =
        deserialize fuel closure.output_type resp >>= λ content. ok (nothing, value content) in
      if is_truthy (property (codes "is_failed") context) then failure else success

  abbrev pub as_message : Method jspb.Message → Request jspb.Message → Result jspb.Message
  as_message method (message m) = ok m
  as_message method (fields v) = instantiate fuel method.input_type v

  -- The packet of a call: `data` is the plain object of its context.
  unfoldable pub packet_of : Method jspb.Message → Value → Request jspb.Message → Result Bytes
  packet_of method data_object req = do
    context ← instantiate fuel (context_type jspb) data_object
    m ← as_message method req
    head ← serialize (instance_of (context_type jspb) context)
    body ← serialize (instance_of method.input_type m)
    ok (pack head body)

  -- `conn.send` and what follows it, once the packet is there.
  abbrev pub send_request :
      Method jspb.Message → ℕ → ℕ → Conn jspb.Message → Bool → Bytes → Bool → Step jspb.Message
  send_request method cb tid conn require_response packet false = record {
    result = throw invalid_state;
    conn = conn;
    events = [];
  }
  send_request method cb tid conn false packet true = record {
    result = ok tt;
    conn = conn;
    events = sent conn.connid packet ∷ scheduled cb nothing nothing ∷ [];
  }
  send_request method cb tid conn true packet true =
      let closure : Closure jspb.Message = record { output_type = method.output_type; cb = cb } in
      record {
        result = ok tt;
        conn = record conn { transmissions = await tid closure conn.transmissions };
        events = sent conn.connid packet ∷ [];
      }

  abbrev pub if_packed :
      Method jspb.Message → ℕ → ℕ → Conn jspb.Message → Bool → Result Bytes → Step jspb.Message
  if_packed method cb tid conn require_response (ok packet) =
      send_request method cb tid conn require_response packet conn.ready
  if_packed method cb tid conn require_response (throw e) = record {
    result = throw e;
    conn = conn;
    events = [];
  }
  if_packed method cb tid conn require_response unfinished = record {
    result = unfinished;
    conn = conn;
    events = [];
  }

  -- The number is taken before anything can throw.
  unfoldable pub request :
      Text → Method jspb.Message → Request jspb.Message → ℕ → Conn jspb.Message → Step jspb.Message
  request service_method method req cb conn =
      let tid = conn.transmission_id in
      let numbered =
        if_packed method cb tid (record conn { transmission_id = tid + 1 }) true
          (packet_of method (request_data service_method tid) req) in
      let notice =
        if_packed method cb tid conn false (packet_of method (notice_data service_method) req) in
      if same_type method.output_type (void_type jspb) then notice else numbered

  abbrev pub closed_error : Value
  closed_error = obj (field (codes "message") (str (codes "pymaid: rpc conn is null/closed")) end)

  -- The rpc function of a stub, on a connection. `none` stands for a callback that is no function.
  unfoldable pub call :
      Text
      → Text
      → Method jspb.Message
      → Request jspb.Message
      → Option ℕ
      → Conn jspb.Message
      → Step jspb.Message
  call service name method req none conn = record {
    result = throw (error (codes "pymaid: rpc cb is not function: " ++ method.label));
    conn = conn;
    events = [];
  }
  call service name method req (some cb) conn =
      let refused : Step jspb.Message = record {
        result = ok tt;
        conn = conn;
        events = scheduled cb (value closed_error) nothing ∷ [];
      } in
      if conn.is_closed then refused else request (service ++ b'.' ∷ name) method req cb conn
