-- ===== src/Pb.antt =====
-- The generated messages of pymaid.proto (plugin/js/pb/pymaid_pb.js).
pub mod Wire
pub mod Pieces
pub mod Cells
pub mod Ending
pub mod Context
pub mod ErrorMessage
pub mod RpcAck
pub mod Void
