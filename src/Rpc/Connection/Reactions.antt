-- ===== src/Rpc/Connection/Reactions.antt =====
-- A `WSConnection` whose callbacks act while they are called: they may throw, call again, close the
-- connection. Their code is not the client's, so it is a parameter.
use pymaid.Prelude.{
  ℕ, ◌&&◌, true, false, List, [], ◌∷◌, ◌++◌, Text, Option, none, some, Result, ok, throw,
  unfinished, map,
}
use pymaid.Rpc.Env.{Env, Argument, Event, called, ws_close, opened, closed}
use pymaid.Rpc.Listener.{listen}
use pymaid.Rpc.Connection.{Closure, Conn, Step, waiting, forget, call}
use pymaid.Rpc.Connection.Inbound.{on_message}
use pymaid.Rpc.Connection.Cleanup.{fail_closure}
use pymaid.Rpc.Connection.Runs.{
  Turn, opens, calls, receives, closes, ends, Trace, is_ok, detached, if_attached,
}

abbrev pub numbers : {M : Type 0} → List (ℕ × Closure M) → List ℕ
numbers = map λ entry. entry.0

-- `reacts e conn` is what the code does that is called at once by the event `e`: a caller's callback, a
-- method of an implementation, `onopen_callback` or `onclose_callback`. How it ends, the connection that
-- it leaves, and what it lets the world see.
module _ (env : Env) (reacts : Event → Conn env.jspb.Message → Step env.jspb.Message) where
  open env use {jspb}

  -- One step, and the next if it did not throw.
  abbrev pub and_then :
      Result (Unit {0})
      → Step jspb.Message
      → (Conn jspb.Message → Step jspb.Message)
      → Step jspb.Message
  and_then (ok u) first next =
      let second = next first.conn in record second { events = first.events ++ second.events }
  and_then (throw e) first next = first
  and_then unfinished first next = first

  abbrev pub in_turn :
      Step jspb.Message → (Conn jspb.Message → Step jspb.Message) → Step jspb.Message
  in_turn first next = and_then first.result first next

  -- The call that the event is.
  abbrev pub performed : Event → Conn jspb.Message → Step jspb.Message
  performed e conn = let s = reacts e conn in record s { events = e ∷ s.events }

  -- `onmessage` ends with the call of the callback, or of the implementation, if it makes one.
  abbrev pub perform_last : List Event → Step jspb.Message → Step jspb.Message
  perform_last [] s = s
  perform_last (e ∷ events) s = performed e s.conn

  -- One closure of `cleanup`, called and then deleted: what is deleted is the entry of the table that
  -- is there then.
  abbrev pub called_and_deleted :
      ℕ → ℕ → Result (Argument × Argument) → Conn jspb.Message → Step jspb.Message
  called_and_deleted tid cb (ok args) conn =
      in_turn (performed (called cb args.0 args.1) conn) λ after. record {
        result = ok tt;
        conn = record after { transmissions = forget tid after.transmissions };
        events = [];
      }
  called_and_deleted tid cb (throw e) conn = record { result = throw e; conn = conn; events = [] }
  called_and_deleted tid cb unfinished conn = record {
    result = unfinished;
    conn = conn;
    events = [];
  }

  abbrev pub fail_waiting :
      Text → ℕ → Option (Closure jspb.Message) → Conn jspb.Message → Step jspb.Message
  fail_waiting reason tid none conn = record { result = ok tt; conn = conn; events = [] }
  fail_waiting reason tid (some closure) conn =
      called_and_deleted tid closure.cb (fail_closure env reason closure) conn

  -- The loop of `cleanup`, over the numbers that the table had at first: one that a callback has deleted
  -- is not visited, and one that a callback has added is not either.
  unfoldable pub fail_all : Text → List ℕ → Conn jspb.Message → Step jspb.Message
  unfolding waiting forget
  fail_all reason [] conn = record { result = ok tt; conn = conn; events = [] }
  fail_all reason (tid ∷ tids) conn =
      in_turn (fail_waiting reason tid (waiting tid conn.transmissions) conn) (fail_all reason tids)

  abbrev pub emptied : Conn jspb.Message → Step jspb.Message
  emptied conn = record { result = ok tt; conn = record conn { transmissions = [] }; events = [] }

  unfoldable pub cleanup_reacting : Text → Conn jspb.Message → Step jspb.Message
  unfolding fail_all
  cleanup_reacting reason conn = in_turn (fail_all reason (numbers conn.transmissions) conn) emptied

  unfoldable pub close_reacting : Text → Conn jspb.Message → Step jspb.Message
  unfolding cleanup_reacting
  close_reacting reason conn =
      let cleaned = cleanup_reacting reason conn in
      record cleaned { events = ws_close conn.connid ∷ cleaned.events }

  unfoldable pub react_turn : Turn jspb.Message → Conn jspb.Message → Step jspb.Message
  unfolding close_reacting
  react_turn opens conn =
      let live = record conn { is_closed = false; ready = true } in
      if_attached env conn.attached live (reacts (opened conn.connid) live)
  react_turn (calls service name method req cb) conn = call env service name method req cb conn
  react_turn (receives listener bytes) conn =
      let s = on_message env (listen env listener) bytes conn in perform_last s.events s
  react_turn (closes reason) conn = close_reacting reason conn
  react_turn (ends evt) conn =
      let shut = record conn { is_closed = true } in
      if_attached env conn.attached shut
        (detached env (in_turn (reacts (closed conn.connid) shut) (cleanup_reacting evt)))

  -- One turn after the other: an exception ends its turn alone.
  unfoldable pub react_turns : List (Turn jspb.Message) → Conn jspb.Message → Trace jspb.Message
  unfolding react_turn
  react_turns [] conn = record { conn = conn; events = []; clean = true }
  react_turns (turn ∷ turns) conn =
      let s = react_turn turn conn in
      let rest = react_turns turns s.conn in
      record rest { events = s.events ++ rest.events; clean = is_ok s.result && rest.clean }
