-- ===== src/Rpc.antt =====
-- The rpc client of plugin/js/pymaid.js.
pub mod Env
pub mod Listener
pub mod Connection
pub mod Channel
