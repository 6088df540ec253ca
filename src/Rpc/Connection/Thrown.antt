-- ===== src/Rpc/Connection/Thrown.antt =====
-- A callback that throws while its connection is closed.
use pymaid.Prelude.{
  ℕ, ◌≤◌, ◌≡◌, refl, true, false, List, [], ◌∷◌, Text, Bytes, throw, Exception, IsWellFormed, ◌==◌,
  arith, ok,
}
use pymaid.Jspb.Laws.{MessageLaws, WireLaws}
use pymaid.Api.Errors.{error_object}
use pymaid.Rpc.Env.{Env, Argument, Event, value, raw, called, ws_close, closed}
use pymaid.Rpc.Connection.{Conn, Closure, Step, waiting}
use pymaid.Rpc.Connection.Cleanup.{closing_message, fail_closure}
use pymaid.Rpc.Connection.Closing.{fail_closure_lem}
use pymaid.Rpc.Connection.Runs.{closes, ends}
use pymaid.Rpc.Connection.Reactions.{
  cleanup_reacting, close_reacting, fail_all, react_turn, react_turns,
}
use pymaid.Rpc.Connection.Quiet.{returns}

module _ (env : Env) (reacts : Event → Conn env.jspb.Message → Step env.jspb.Message)
    (x : Exception) (tid : ℕ) (closure : Closure env.jspb.Message)
    (throws : (err resp : Argument) (conn : Conn env.jspb.Message)
      → reacts (called closure.cb err resp) conn
        ≡ record { result = throw x; conn = conn; events = [] }) where
  open env use {jspb}

  cleanup_throws :
      (reason : Text) (err resp : Argument) (conn : Conn jspb.Message)
      (t : List (ℕ × Closure jspb.Message))
      → fail_closure env reason closure ≡ ok (err, resp)
      → cleanup_reacting env reacts reason (record conn { transmissions = (tid, closure) ∷ t })
        ≡ record {
          result = throw x;
          conn = record conn { transmissions = (tid, closure) ∷ t };
          events = called closure.cb err resp ∷ [];
        }
  unfolding cleanup_reacting fail_all waiting
  cleanup_throws reason err resp conn t e =
      let same : (tid == tid) ≡ true = ground arith in
      rw (same, e, throws err resp (record conn { transmissions = (tid, closure) ∷ t })) refl

  -- If the callback of the first open request throws, whatever it is given, and leaves the connection as
  -- it is, and `onclose_callback` does nothing to it: after `close` and the `close` event of the socket
  -- it has been called twice, and no other callback has been. Its request is still open, and so are
  -- those behind it. (The texts of the reasons have a UTF-8 form, and the fuel is at least 9.)
  pub react_turns-thrown :
      (laws : MessageLaws jspb) (wire_laws : WireLaws jspb)
      → ((conn : Conn jspb.Message) → reacts (closed conn.connid) conn ≡ returns conn)
      → (conn : Conn jspb.Message) (t : List (ℕ × Closure jspb.Message)) (reason evt : Text)
      → 9 ≤ env.fuel
      → IsWellFormed (closing_message env reason)
      → IsWellFormed (closing_message env evt)
      → (bytes bytes' : Bytes) × (react_turns env reacts
            (closes reason ∷ ends evt ∷ [])
            (record conn { attached = true; transmissions = (tid, closure) ∷ t })
          ≡ record {
            conn = record conn {
              is_closed = true;
              attached = true;
              transmissions = (tid, closure) ∷ t;
            };
            events =
                ws_close conn.connid
                ∷ called closure.cb
                    (value (error_object [] (closing_message env reason) []))
                    (raw bytes)
                ∷ called closure.cb
                    (value (error_object [] (closing_message env evt) []))
                    (raw bytes')
                ∷ [];
            clean = false;
          })
  unfolding react_turns react_turn close_reacting
  react_turns-thrown laws wire_laws quiet conn t reason evt enough well well' =
      let (bytes, e) = fail_closure_lem env laws wire_laws reason enough well in
      let (bytes', e') = fail_closure_lem env laws wire_laws evt enough well' in
      let there = record conn { attached = true } in
      let shut = record conn { attached = true; is_closed = true } in
      (
        bytes,
        bytes',
        rw
            (
              cleanup_throws reason _ _ there t (e closure),
              quiet (record shut { transmissions = (tid, closure) ∷ t }),
              cleanup_throws evt _ _ shut t (e' closure),
            )
            refl,
      )
