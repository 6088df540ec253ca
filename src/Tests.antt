-- ===== src/Tests.antt =====
-- Runs of the client on concrete inputs.
pub mod Data
pub mod Texts
pub mod Calls
pub mod Channels
pub mod Requests
pub mod Examples
pub mod Exchanges
pub mod Runs
pub mod Server
pub mod Streams
pub mod Refusals
