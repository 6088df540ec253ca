-- ===== src/Rpc/Channel/Closing.antt =====
-- What the end of one connection does to the channel.
use pymaid.Prelude.{[]}
use pymaid.Jspb.Laws.{MessageLaws, WireLaws}
use pymaid.Rpc.Env.{Env}
use pymaid.Rpc.Connection.{Conn}

module _ (env : Env) (laws : MessageLaws env.jspb) (wire_laws : WireLaws env.jspb) where
  open env use {jspb, fuel}

  abbrev emptied : Conn jspb.Message → Conn jspb.Message
  emptied conn = record conn { transmissions = [] }
