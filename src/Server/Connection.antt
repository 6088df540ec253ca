-- ===== src/Server/Connection.antt =====
-- A connection of the server: `Connection` of pymaid/rpc/connection.py, with the routes of
-- pymaid/rpc/router.py and the dispatch of pymaid/rpc/pb/router.py. An exception that a piece of data
-- raises ends the connection (`_reader` of pymaid/net/stream.py), so that a result is all there is of it.
-- The calls that a server makes itself are left out: each context is one of a client's call.
pub mod Chunks
use pymaid.Prelude.{
  ℕ, ◌+◌, ◌++◌, Bool, true, false, List, [], ◌∷◌, Option, none, some, Text, Bytes, drop, ◌==◌,
  if◌then◌else◌, Result, ok, throw, ◌>>=◌, type_error, assertion_error,
}
use pymaid.Pb.Context.{request_packet, response_packet}
use pymaid.Pb.Context.Contents.{Contents}
use pymaid.Rpc.Connection.{waiting}
use pymaid.Rpc.Listener.{find, insert}
use pymaid.Server.Protocol.{MessageClass, encode, feed_data}
use pymaid.Server.Contexts.{ServerMethod, Inbound, feed_message, new_inbound_context, renew}

-- A coroutine that the handler is given: the run of a context's method, or the refusal of a packet.
pub data Task : Type 0 where
  run : ℕ → Task
  refuse : Contents → Task

-- The contexts that are open, under their numbers, and the tasks that are to run, in order.
pub record Work (M : Type 0) : Type 0 where
  pub contexts : List (ℕ × Inbound M)
  pub tasks : List Task

pub record Server (M : Type 0) : Type 0 where
  pub read_buffer : Bytes
  pub work : Work M

-- `include_service`, for one method: it is found with and without a dot in front.
unfoldable pub include_method :
    {M : Type 0}
    → ServerMethod M
    → List (Text × ServerMethod M)
    → Result (List (Text × ServerMethod M))
unfolding find insert
include_method method routes = elim (find method.full_name routes) [
  | some other ↦ throw assertion_error
  | none ↦ ok (insert (b'.' ∷ method.full_name) method (insert method.full_name method routes))
]

-- `handle_error` of the router: the packet's own Context comes back, as a response that failed.
unfoldable pub refusal :
    {N : Type 0} → MessageClass Contents → MessageClass N → Contents → N → Result Bytes
unfolding encode
refusal metas errors meta error_message =
    encode metas errors (record meta { is_failed = true; packet_type = response_packet })
      error_message

module _ {M : Type 0} (metas : MessageClass Contents) (routes : List (Text × ServerMethod M))
    (initiative : Bool) where
  -- A request that opens a context. A name with no route calls `handle_error` with an argument too few.
  abbrev pub open_context : Contents → Bytes → Work M → Option (ServerMethod M) → Result (Work M)
  open_context meta payload work none = throw type_error
  open_context meta payload work (some method) =
      new_inbound_context initiative method meta.transmission_id work.contexts >>= λ made.
      feed_message meta payload made.0 >>= λ context. ok (record {
        contexts = renew meta.transmission_id context made.1;
        tasks = work.tasks ++ run meta.transmission_id ∷ [];
      })

  abbrev pub dispatch : Contents → Bytes → Work M → Option (Inbound M) → Result (Work M)
  dispatch meta payload work (some context) = feed_message meta payload context >>= λ context.
      ok (record work { contexts = renew meta.transmission_id context work.contexts })
  dispatch meta payload work none =
      if meta.packet_type == request_packet
      then open_context meta payload work (find meta.service_method routes)
      else if meta.packet_type == response_packet
      then ok work
      else ok (record work { tasks = work.tasks ++ refuse meta ∷ [] })

  -- One round of the loop of `feed_messages`.
  unfoldable pub feed_one : Contents × Bytes → Work M → Result (Work M)
  unfolding waiting find renew feed_message new_inbound_context
  feed_one (meta, payload) work =
      dispatch meta payload work (waiting meta.transmission_id work.contexts)

  unfoldable pub feed_messages : List (Contents × Bytes) → Work M → Result (Work M)
  unfolding feed_one
  feed_messages [] work = ok work
  feed_messages (message ∷ messages) work =
      feed_one message work >>= λ work. feed_messages messages work

  -- `data_received`: the tasks are submitted behind those that wait already.
  abbrev pub after_feeding : Server M → Bytes → ℕ × List (Contents × Bytes) → Result (Server M)
  after_feeding server buffer (used_size, messages) =
      if used_size == 0
      then ok (record server { read_buffer = buffer })
      else (feed_messages messages server.work >>= λ work.
          ok (record server { read_buffer = drop used_size buffer; work = work }))

  unfoldable pub data_received : Bytes → Server M → Result (Server M)
  unfolding feed_data feed_messages
  data_received bytes server =
      let buffer = server.read_buffer ++ bytes in
      feed_data metas buffer >>= λ fed. after_feeding server buffer fed

  -- The pieces of data that arrive, in order, before any task has a turn.
  unfoldable pub receive : List Bytes → Server M → Result (Server M)
  unfolding data_received
  receive [] server = ok server
  receive (bytes ∷ chunks) server = data_received bytes server >>= λ server. receive chunks server
