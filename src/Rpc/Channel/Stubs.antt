-- ===== src/Rpc/Channel/Stubs.antt =====
-- The stubs of a channel of plugin/js/pymaid.js: `init_stubs`, and the call of a stub's method.
use pymaid.Prelude.{
  ℕ, List, [], ◌∷◌, ◌++◌, Text, codes, Option, none, some, ok, throw, type_error, error,
}
use pymaid.Names.Defs.{lower}
use pymaid.Rpc.Env.{Env, Method, value, nothing, scheduled}
use pymaid.Rpc.Listener.{insert}
use pymaid.Rpc.Connection.{Request, call, closed_error}
use pymaid.Rpc.Channel.{Service, World, WorldStep, bind_connection, at}

module _ {M : Type 0} where
  -- `init_stubs`: a new manager, which gets the stubs of `pbrpc` and is bound to the channel's
  -- connection. A service with an empty name has no first letter.
  unfoldable pub init_stubs_from : List (Text × Service M) → World M → WorldStep M
  unfolding bind_connection insert lower
  init_stubs_from [] w = record { result = ok tt; world = bind_connection w.conn w; events = [] }
  init_stubs_from (([], service) ∷ pbrpc) w = record {
    result = throw type_error;
    world = w;
    events = [];
  }
  init_stubs_from ((c ∷ s, service) ∷ pbrpc) w =
      init_stubs_from pbrpc (record w { stubs = insert (lower c ∷ s) service w.stubs })

  unfoldable pub init_stubs : List (Text × Service M) → World M → WorldStep M
  unfolding init_stubs_from
  init_stubs pbrpc w = init_stubs_from pbrpc (record w { stubs = []; stubs_conn = none })

module _ (env : Env) where
  open env use {jspb}

  -- `stub[name](req, cb, conn)`: without `conn` the call goes to the stubs' connection, if they have one.
  abbrev pub call_on :
      Text
      → Text
      → Method jspb.Message
      → Request jspb.Message
      → ℕ
      → Option ℕ
      → World jspb.Message
      → WorldStep jspb.Message
  call_on service name method req cb none w = record {
    result = ok tt;
    world = w;
    events = scheduled cb (value (closed_error env)) nothing ∷ [];
  }
  call_on service name method req cb (some c) w =
      at env c w (call env service name method req (some cb) (w.conns c))

  abbrev pub or_else : Option ℕ → Option ℕ → Option ℕ
  or_else none d = d
  or_else (some c) d = some c

  unfoldable pub stub_call :
      Text
      → Text
      → Method jspb.Message
      → Request jspb.Message
      → Option ℕ
      → Option ℕ
      → World jspb.Message
      → WorldStep jspb.Message
  stub_call service name method req none conn w = record {
    result = throw (error (codes "pymaid: rpc cb is not function: " ++ method.label));
    world = w;
    events = [];
  }
  stub_call service name method req (some cb) conn w =
      call_on service name method req cb (or_else conn w.stubs_conn) w
