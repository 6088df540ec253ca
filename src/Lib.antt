-- ===== src/Lib.antt =====
-- The JavaScript client of pymaid (plugin/js): calls of remote services over a WebSocket.
--
-- The client has these parts. Stubs build a Context and a request message, pack them to one packet and
-- send it on a connection; the connection keeps a table of open transmissions, by number, and hands
-- each response to the callback that waits under its number. A channel holds the current connection,
-- the stubs and the listener; the listener serves requests that come from the server. Messages are
-- plain objects that are converted to instances of generated protobuf classes and back. The names
-- below are those of plugin/js/pymaid.js, where no other file is named.
--
-- Prelude: Boolean tests, lists, text, and results with exceptions.
-- Js: the values of JavaScript that the client reads and builds, and the operations of plain objects.
-- Names: `underscore` and `camel`. Names.Defs has the two functions, Names.Keys what they do to one
--   name, Names.Values what a renaming does to a value.
-- Convert, Api: `jspb_instantiate`, `jspb_serialize` and `jspb_deserialize`. The `idx` that the loops of
--   a `transform` share is explicit in Convert.Loop; Convert.Passes is about data without maps, Convert.Skipped about what comes behind a map.
--   Convert.Ending is the fuel of `jspb_instantiate`: Convert.Weights measures what its loop has to work
--   off, Convert.Rounds what a round does to this.
-- Jspb: the protobuf runtime (plugin/js/pb/google-protobuf.js), a parameter: its operations, in
--   Jspb.Laws what is relied on, in Jspb.Reference an instance that has these laws. Jspb.Nested is the part
--   of it for messages within messages, lists and maps.
-- Pb: the generated code of plugin/js/pb/pymaid_pb.js, for Context, ErrorMessage, RpcAck and Void.
--   Pb.Wire has what all generated methods share, Pb.Ending is about bytes that no writer wrote.
-- Parser: `PBParser.pack` and `PBParser.unpack`, over lists of bytes.
-- Rpc: Rpc.Connection is `WSConnection` and the function that `_buildRpc` builds; Rpc.Listener is
--   `Listener`; Rpc.Channel is `Channel` and `StubManager`, with the connections of a channel in one
--   world, and its steps. A call returns how it ended, the state, and the events that the outside
--   sees: packets sent, sockets closed, callbacks called. Rpc.Connection.Inbound is `onmessage`,
--   Rpc.Connection.Cleanup the closing, and Rpc.Connection.Failures is about the error that a
--   callback gets; Rpc.Channel.Stubs has the stubs, Rpc.Channel.Actions all that may happen.
--   Rpc.Connection.Reactions puts the steps of one connection in a row; what the caller's callbacks do
--   while they are called is a parameter there, so they may throw, call, and close. Rpc.Connection.Thrown
--   is about one that throws. Rpc.Connection.Quiet is about those that leave the connection alone: their
--   runs are those of Rpc.Connection.Runs, where nothing happens between two steps.
--   Rpc.Connection.Ledger counts the calls of a callback. Rpc.Connection.Spec is what a connection
--   promises, a table of callbacks under numbers and what each act does to it, and
--   Rpc.Connection.Refinement that it keeps the promise.
-- Examples: the generated code and the services of plugin/js/examples/echo and
--   plugin/js/examples/complicated. examples/pb/echo.js is the first of them again.
-- Http: `HttpManager` with its middlewares; a request is the list of calls that are made on the
--   platform's XMLHttpRequest. Http.Urls has `getParams`, `_realUrl` and `setRootUrl`,
--   Http.Answers the events of a request; Http.Queries is about the names and values of a query.
-- Server: the other side of the wire, in Python (pymaid/rpc). Server.Protocol is
--   pymaid/rpc/pb/protocol.py: Server.Protocol.Framing is about the packet in front of a stream,
--   Server.Protocol.Streams about the whole of it. Server.Contexts has the contexts of inbound calls and
--   their manager, Server.Connection the reading side of a connection with its routes. A task of the
--   server is known by its context's number; its run is a later step. Server.Exchange puts client and
--   server together: each has its own protobuf runtime, and WireFormat states that the server's
--   reads and writes what the client's does.
-- Tests: runs on concrete inputs.
--
-- Exceptions are values of `Result`, in Prelude.Results; the state that a call had written when it
-- threw stays. Callbacks are known by numbers: what a caller's callback does on the channel is a later
-- step, and what it does on its connection is a parameter of Rpc.Connection.Reactions. Strings are lists of
-- UTF-16 code units, and names of properties are in ASCII. Numbers are natural numbers. An object lists
-- its properties in the order in which they were added; where the keys of a map may be array indices,
-- Js.Indices puts these first.
--
-- Fuel: the `transform`s run on fuel, since their loops change the index that they count with; it is a
-- field of the environment. A Context asks for 9 and an ErrorMessage for 5, one for each round of
-- the loop and each level of the value, and an echo message for 3; Convert.Ending bounds what
-- `jspb_instantiate` needs for any value. The loop that reads a message is given one round more than
-- the message has bytes, and each field takes a byte at least; so is the loop that reads packets, each of
-- which takes four.
--
-- Not modelled: `pb.format` and the other log lines, numbers that are negative or not whole,
-- `opt_index` of `addUints`, the scripts of the examples, the generator plugin/js/jsrpc.py, and,
-- of the Python library, all but the server's side of a client's call: the calls that it makes
-- itself, time-outs, sockets and the event loop, channels, HTTP and WebSocket, settings and tools.
mod Prelude
pub mod Js
pub mod Names
pub mod Convert
pub mod Parser
pub mod Jspb
pub mod Pb
pub mod Api
pub mod Rpc
pub mod Http
pub mod Examples
pub mod Server
pub mod Tests
