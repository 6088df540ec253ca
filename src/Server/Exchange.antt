-- ===== src/Server/Exchange.antt =====
-- The client of plugin/js/pymaid.js and the server of pymaid/rpc, over one connection. Each has a protobuf
-- runtime of its own: they meet in the bytes.
pub mod Requests
pub mod Answers
pub mod Calls
pub mod Reference
use pymaid.Prelude.{ℕ, ◌%◌, ◌≤◌, ◌≡◌, ◌==◌, true, Bytes, length, ok}
use pymaid.Jspb.{Jspb}
use pymaid.Jspb.Laws.{WireLaws}
use pymaid.Pb.Context.Contents.{Contents, InRange, wire}
use pymaid.Server.Protocol.{MessageClass}
use pymaid.Server.Protocol.Packets.{IsSized}

-- The server's class of Contexts reads and writes the wire format that the client's does.
module _ (j : Jspb) (wire_laws : WireLaws j) where
  pub record WireFormat (metas : MessageClass Contents) : Type 0 where
    pub sized : IsSized metas
    pub reads :
        (bytes : Bytes) (d : Contents)
        → InRange d
        → wire_laws.Pending (j.new_reader bytes) (wire d)
        → metas.from_string bytes ≡ ok d
    pub writes :
        (d : Contents)
        → InRange d
        → wire_laws.Pending (j.new_reader (metas.serialize_to_string d)) (wire d)
          × (length (wire d) ≤ length (metas.serialize_to_string d))

-- The numbers that a server takes.
abbrev pub IsOdd : ℕ → Type 0
IsOdd n = (n % 2 == 1) ≡ true
