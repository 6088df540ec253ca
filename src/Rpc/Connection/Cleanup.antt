-- ===== src/Rpc/Connection/Cleanup.antt =====
-- `cleanup` and `close` of a `WSConnection` of plugin/js/pymaid.js, for callbacks that return and leave the
-- connection alone; for others see Rpc.Connection.Reactions.
use pymaid.Prelude.{ℕ, true, List, [], ◌∷◌, ◌++◌, Text, codes, Result, ok, throw, unfinished, ◌>>=◌}
use pymaid.Js.{Value, bool, obj, end, field}
use pymaid.Api.{instance_of, error_message_type, instantiate, serialize}
use pymaid.Api.Errors.{error_data}
use pymaid.Rpc.Env.{Env, Argument, ws_close, called}
use pymaid.Rpc.Connection.{Closure, Conn, Step, deliver}

module _ (env : Env) where
  open env use {jspb, fuel, json_parse}

  -- `cleanup`: the closures are called in turn with an error, each before it is deleted, so that one
  -- that throws stays, with those behind it.
  abbrev pub failed_context : Value
  failed_context = obj (field (codes "is_failed") (bool true) end)

  abbrev pub closing_message : Text → Text
  closing_message reason = codes "pymaid: rpc conn closed with [reason|" ++ (reason ++ codes "]")

  unfoldable pub fail_closure : Text → Closure jspb.Message → Result (Argument × Argument)
  fail_closure reason closure = do
    m ← instantiate fuel (error_message_type jspb) (error_data (closing_message reason))
    bytes ← serialize (instance_of (error_message_type jspb) m)
    deliver env closure failed_context bytes

  abbrev pub after_failing :
      Conn jspb.Message
      → ℕ × Closure jspb.Message
      → Step jspb.Message
      → Result (Argument × Argument)
      → Step jspb.Message
  after_failing conn entry rest (ok args) = record rest {
    events = called (entry.1).cb args.0 args.1 ∷ rest.events;
  }
  after_failing conn entry rest (throw e) = record { result = throw e; conn = conn; events = [] }
  after_failing conn entry rest unfinished = record {
    result = unfinished;
    conn = conn;
    events = [];
  }

  -- The loop over the transmissions, of which `open_ones` are left.
  unfoldable pub cleanup_from :
      Text → Conn jspb.Message → List (ℕ × Closure jspb.Message) → Step jspb.Message
  cleanup_from reason conn [] = record {
    result = ok tt;
    conn = record conn { transmissions = [] };
    events = [];
  }
  cleanup_from reason conn (entry ∷ open_ones) =
      after_failing (record conn { transmissions = entry ∷ open_ones }) entry
        (cleanup_from reason conn open_ones) (fail_closure reason entry.1)

  unfoldable pub cleanup : Text → Conn jspb.Message → Step jspb.Message
  unfolding cleanup_from
  cleanup reason conn = cleanup_from reason conn conn.transmissions

  unfoldable pub close_connection : Text → Conn jspb.Message → Step jspb.Message
  close_connection reason conn =
      let cleaned = cleanup reason conn in
      record cleaned { events = ws_close conn.connid ∷ cleaned.events }
