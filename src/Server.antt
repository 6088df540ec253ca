-- ===== src/Server.antt =====
-- The server that the client talks to, as far as the wire goes: pymaid/rpc.
pub mod Protocol
pub mod Contexts
pub mod Connection
pub mod Exchange
