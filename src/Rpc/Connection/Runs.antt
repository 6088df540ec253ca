-- ===== src/Rpc/Connection/Runs.antt =====
-- A connection from its start on: calls, messages of the server, and its end. The callbacks that are
-- called leave the connection alone until they have returned (Rpc.Connection.Quiet); what others do
-- is in Rpc.Connection.Reactions.
use pymaid.Prelude.{
  IsWellFormed, ℕ, ◌+◌, ◌≤◌, ◌≡◌, refl, Bool, not, true, false, ◌&&◌, List, [], ◌∷◌, ◌++◌, Text,
  Bytes, Option, Result, ok, throw, unfinished, arith, type_error,
}
use pymaid.Rpc.Env.{Env, Method, Event}
use pymaid.Rpc.Listener.{Listener, listen}
use pymaid.Rpc.Connection.{Conn, Step, Request, new_connection, call}
use pymaid.Rpc.Connection.Inbound.{on_message}
use pymaid.Rpc.Connection.Cleanup.{closing_message, cleanup, close_connection}
use pymaid.Jspb.Laws.{MessageLaws, WireLaws}
use pymaid.Rpc.Connection.Closing.{close_connection_lem}
use pymaid.Rpc.Connection.Ledger.{
  fired, open_for, asked_by, Balanced, call-Balanced, message-Balanced, cleanup-Balanced,
}

-- The socket's `open` event, a call of a stub, a message for the listener or for an open request, `close`,
-- and the socket's `close` event.
pub data Turn (Message : Type 0) : Type 0 where
  opens : Turn Message
  calls : Text → Text → Method Message → Request Message → Option ℕ → Turn Message
  receives : Listener Message → Bytes → Turn Message
  closes : Text → Turn Message
  ends : Text → Turn Message

-- `clean` is false if a turn threw.
pub record Trace (Message : Type 0) : Type 0 where
  pub conn : Conn Message
  pub events : List Event
  pub clean : Bool

abbrev pub is_ok : Result (Unit {0}) → Bool
is_ok (ok u) = true
is_ok (throw e) = false
is_ok unfinished = false

fired-append : (cb : ℕ) (xs ys : List Event) → fired cb (xs ++ ys) ≡ fired cb xs + fired cb ys
fired-append cb [] ys = omega arith
fired-append cb (x ∷ xs) ys = omega (arith, fired-append cb xs ys)

ok_of : (r : Result (Unit {0})) → is_ok r ≡ true → r ≡ ok tt
ok_of (ok tt) h = refl
ok_of (throw e) h = cc
ok_of unfinished h = cc

both_true : (a b : Bool) → (a && b) ≡ true → (a ≡ true) × (b ≡ true)
both_true a b h = ground arith

module _ (env : Env) where
  open env use {jspb}

  -- What `onclose` does to the connection once its callback has returned: an exception of `cleanup` leaves
  -- the channel in place.
  abbrev pub detached : Step jspb.Message → Step jspb.Message
  detached s = record s { conn = record s.conn { attached = not (is_ok s.result) } }

  -- The callbacks of the socket's `open` and `close` events are null once it has closed.
  abbrev pub if_attached : Bool → Conn jspb.Message → Step jspb.Message → Step jspb.Message
  if_attached true conn s = s
  if_attached false conn s = record { result = throw type_error; conn = conn; events = [] }

  pub if_attached_cases :
      (P : Step jspb.Message → Type 0) (b : Bool) (conn : Conn jspb.Message) (s : Step jspb.Message)
      → P s
      → P (record { result = throw type_error; conn = conn; events = [] })
      → P (if_attached b conn s)
  if_attached_cases P true conn s there gone = there
  if_attached_cases P false conn s there gone = gone

  unfoldable pub take_turn : Turn jspb.Message → Conn jspb.Message → Step jspb.Message
  take_turn opens conn =
      let live = record conn { is_closed = false; ready = true } in
      if_attached conn.attached live (record { result = ok tt; conn = live; events = [] })
  take_turn (calls service name method req cb) conn = call env service name method req cb conn
  take_turn (receives listener bytes) conn = on_message env (listen env listener) bytes conn
  take_turn (closes reason) conn = close_connection env reason conn
  take_turn (ends evt) conn =
      let shut = record conn { is_closed = true } in
      if_attached conn.attached shut (detached (cleanup env evt shut))

  -- One turn after the other: an exception ends its turn alone.
  unfoldable pub run_turns : List (Turn jspb.Message) → Conn jspb.Message → Trace jspb.Message
  unfolding take_turn
  run_turns [] conn = record { conn = conn; events = []; clean = true }
  run_turns (turn ∷ turns) conn =
      let s = take_turn turn conn in
      let rest = run_turns turns s.conn in
      record rest { events = s.events ++ rest.events; clean = is_ok s.result && rest.clean }

  -- How often the callback was passed to a call.
  abbrev pub asks : ℕ → List (Turn jspb.Message) → ℕ
  asks cb [] = 0
  asks cb (calls service name method req k ∷ turns) = asked_by env cb k + asks cb turns
  asks cb (opens ∷ turns) = asks cb turns
  asks cb (receives listener bytes ∷ turns) = asks cb turns
  asks cb (closes reason ∷ turns) = asks cb turns
  asks cb (ends evt ∷ turns) = asks cb turns

  module _ (cb : ℕ) where
    abbrev asks_once : Turn jspb.Message → ℕ
    asks_once turn = asks cb (turn ∷ [])

    close-Balanced :
        (reason : Text) (conn : Conn jspb.Message)
        → Balanced env cb 0 conn (close_connection env reason conn)
    unfolding cleanup close_connection
    close-Balanced reason conn =
        let cleaned = cleanup-Balanced env cb reason conn conn.transmissions in
        (omega (arith, cleaned.0), λ h. omega (arith, cleaned.1 h))

    turn-Balanced :
        (turn : Turn jspb.Message) (conn : Conn jspb.Message)
        → Balanced env cb (asks_once turn) conn (take_turn turn conn)
    unfolding take_turn cleanup
    turn-Balanced opens conn =
        let live = record conn { is_closed = false; ready = true } in
        if_attached_cases (Balanced env cb 0 conn) conn.attached live
          (record { result = ok tt; conn = live; events = [] }) (omega arith, λ h. omega arith)
          (omega arith, λ h. cc)
    turn-Balanced (calls service name method req k) conn =
        let once = call-Balanced env cb service name method req k conn in
        (omega (arith, once.0), λ h. omega (arith, once.1 h))
    turn-Balanced (receives listener bytes) conn = message-Balanced env cb listener bytes conn
    turn-Balanced (closes reason) conn = close-Balanced reason conn
    turn-Balanced (ends evt) conn =
        let shut = record conn { is_closed = true } in
        if_attached_cases (Balanced env cb 0 conn) conn.attached shut
          (detached (cleanup env evt shut)) (cleanup-Balanced env cb evt shut conn.transmissions)
          (omega arith, λ h. cc)

    asks-cons :
        (turn : Turn jspb.Message) (turns : List (Turn jspb.Message))
        → asks cb (turn ∷ turns) ≡ asks_once turn + asks cb turns
    asks-cons opens turns = omega arith
    asks-cons (calls service name method req k) turns = omega arith
    asks-cons (receives listener bytes) turns = omega arith
    asks-cons (closes reason) turns = omega arith
    asks-cons (ends evt) turns = omega arith

    run_bounded :
        (turns : List (Turn jspb.Message)) (conn : Conn jspb.Message)
        → fired cb (run_turns turns conn).events
            + open_for cb (run_turns turns conn).conn.transmissions
          ≤ open_for cb conn.transmissions + asks cb turns
    unfolding run_turns
    run_bounded [] conn = omega arith
    run_bounded (turn ∷ turns) conn =
        let s = take_turn turn conn in
        let first = (turn-Balanced turn conn).0 in
        let split = asks-cons turn turns in
        let both = fired-append cb s.events (run_turns turns s.conn).events in
        omega (arith, run_bounded turns s.conn)

    run_exact :
        (turns : List (Turn jspb.Message)) (conn : Conn jspb.Message)
        → (run_turns turns conn).clean ≡ true
        → fired cb (run_turns turns conn).events
            + open_for cb (run_turns turns conn).conn.transmissions
          ≡ open_for cb conn.transmissions + asks cb turns
    unfolding run_turns
    run_exact [] conn h = omega arith
    run_exact (turn ∷ turns) conn h =
        let s = take_turn turn conn in
        let parts = both_true (is_ok s.result) (run_turns turns s.conn).clean h in
        let first = (turn-Balanced turn conn).1 (ok_of s.result parts.0) in
        let split = asks-cons turn turns in
        let both = fired-append cb s.events (run_turns turns s.conn).events in
        omega (arith, run_exact turns s.conn parts.1)

    -- Whatever calls are made on a new connection between the calls of its callbacks, whatever the server
    -- sends and however often it is closed: a callback is called, at once or by a timer, at most as often as it was passed to a call.
    pub fired-le-asks :
        (connid : ℕ) (address : Text) (turns : List (Turn jspb.Message))
        → fired cb (run_turns turns (new_connection connid address)).events ≤ asks cb turns
    unfolding new_connection
    fired-le-asks connid address turns =
        omega (arith, run_bounded turns (new_connection connid address))

    -- With callbacks that return and leave the connection alone: when a connection is closed after turns of which none threw, each callback has been called exactly
    -- as often as it was passed to a call. (The text of the reason has a UTF-8 form.)
    pub fired-close :
        MessageLaws jspb
        → WireLaws jspb
        → (connid : ℕ) (address reason : Text) (turns : List (Turn jspb.Message)) → 9 ≤ env.fuel
        → IsWellFormed (closing_message env reason)
        → let before = run_turns turns (new_connection connid address) in
          before.clean ≡ true
          → fired cb (before.events ++ (close_connection env reason before.conn).events)
            ≡ asks cb turns
    unfolding new_connection
    fired-close laws wire_laws connid address reason turns enough well clean =
        let before = run_turns turns (new_connection connid address) in
        let (bytes, e) = close_connection_lem env laws wire_laws reason before.conn enough well in
        let exact = run_exact turns (new_connection connid address) clean in
        let balanced = (close-Balanced reason before.conn).1 (rw e refl) in
        let both = fired-append cb before.events (close_connection env reason before.conn).events in
        let emptied : open_for cb (close_connection env reason before.conn).conn.transmissions ≡ 0 =
          rw e refl in
        omega arith
