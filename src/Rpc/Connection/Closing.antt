-- ===== src/Rpc/Connection/Closing.antt =====
-- How a connection that closes answers its open requests.
use pymaid.Prelude.{ℕ, ◌≤◌, ◌≡◌, refl, [], ◌∷◌, List, Text, Bytes, eq_text, IsWellFormed, ok, map}
use pymaid.Js.{get}
use native.Mathlib.Omega.{arith}
use pymaid.Jspb.Laws.{MessageLaws, WireLaws}
use pymaid.Api.Errors.{error_object, error_data_lem}
use pymaid.Rpc.Env.{Env, Event, value, raw, called, ws_close}
use pymaid.Rpc.Connection.{Conn, Closure, deliver}
use pymaid.Rpc.Connection.Cleanup.{
  fail_closure, closing_message, cleanup, cleanup_from, close_connection,
}

module _ (env : Env) (laws : MessageLaws env.jspb) (wire_laws : WireLaws env.jspb) where
  open env use {jspb, fuel}

  -- The bytes do not depend on the closure.
  pub fail_closure_lem :
      (reason : Text)
      → 9 ≤ fuel
      → IsWellFormed (closing_message env reason)
      → (bytes : Bytes) × ((closure : Closure jspb.Message)
          → fail_closure env reason closure
            ≡ ok (value (error_object [] (closing_message env reason) []), raw bytes))
  unfolding fail_closure deliver get eq_text
  fail_closure_lem reason enough well =
      let (m, bytes, built, written, read) =
        error_data_lem jspb laws wire_laws fuel (closing_message env reason) (omega arith) well in
      (bytes, λ closure. rw (built, written, read))

  -- What the callback of each open request is given.
  abbrev pub failures : Text → Bytes → List (ℕ × Closure jspb.Message) → List Event
  failures reason bytes = map λ entry.
      called (entry.1).cb (value (error_object [] (closing_message env reason) [])) (raw bytes)

  cleanup_from_lem :
      (reason : Text) (bytes : Bytes) (conn : Conn jspb.Message)
      (open_ones : List (ℕ × Closure jspb.Message))
      → ((closure : Closure jspb.Message)
          → fail_closure env reason closure
            ≡ ok (value (error_object [] (closing_message env reason) []), raw bytes))
      → cleanup_from env reason conn open_ones ≡ record {
        result = ok tt;
        conn = record conn { transmissions = [] };
        events = failures reason bytes open_ones;
      }
  unfolding cleanup_from
  cleanup_from_lem reason bytes conn [] h = refl
  cleanup_from_lem reason bytes conn (entry ∷ open_ones) h =
      rw (h entry.1, cleanup_from_lem reason bytes conn open_ones h)

  pub cleanup_lem :
      (reason : Text)
      → 9 ≤ fuel
      → IsWellFormed (closing_message env reason)
      → (bytes : Bytes) × ((conn : Conn jspb.Message)
          → cleanup env reason conn ≡ record {
            result = ok tt;
            conn = record conn { transmissions = [] };
            events = failures reason bytes conn.transmissions;
          })
  unfolding cleanup
  cleanup_lem reason enough well =
      let (bytes, h) = fail_closure_lem reason enough well in
      (bytes, λ conn. cleanup_from_lem reason bytes conn conn.transmissions h)

  pub close_connection_lem :
      (reason : Text) (conn : Conn jspb.Message)
      → 9 ≤ fuel
      → IsWellFormed (closing_message env reason)
      → (bytes : Bytes) × (close_connection env reason conn ≡ record {
        result = ok tt;
        conn = record conn { transmissions = [] };
        events = ws_close conn.connid ∷ failures reason bytes conn.transmissions;
      })
  unfolding close_connection
  close_connection_lem reason conn enough well =
      let (bytes, h) = cleanup_lem reason enough well in (bytes, rw (h conn))
