-- ===== src/Rpc/Connection/Quiet.antt =====
-- Connections whose callbacks return, and leave the connection alone while they are called.
use pymaid.Prelude.{
  IsWellFormed, ℕ, ◌≤◌, ◌≡◌, ◌∙◌, ap, refl, ◌++◌, Bool, true, false, List, [], ◌∷◌, Text, Bytes,
  codes, ◌==◌, if_cases, Option-cases, inl, inr, Result, ok, throw, unfinished, arith,
}
use pymaid.Js.{Value, is_number, property}
use pymaid.Jspb.Laws.{MessageLaws, WireLaws}
use pymaid.Parser.{Packet}
use pymaid.Pb.Context.{response_packet}
use pymaid.Rpc.Env.{Env, Argument, Event, called, invoked, ws_close, opened, closed}
use pymaid.Rpc.Listener.{Listener, listen}
use pymaid.Rpc.Listener.Heard.{listen_cases}
use pymaid.Rpc.Connection.{Conn, Closure, Step, new_connection, waiting, forget, deliver}
use pymaid.Rpc.Connection.Inbound.{on_message, on_response, on_packet, answered, heard, number_of}
use pymaid.Rpc.Connection.Cleanup.{
  cleanup, cleanup_from, close_connection, closing_message, fail_closure, after_failing,
}
use pymaid.Rpc.Connection.Ledger.{fired}
use pymaid.Rpc.Connection.Runs.{
  Turn, opens, calls, receives, closes, ends, take_turn, run_turns, asks, detached, if_attached,
  is_ok, fired-le-asks, fired-close,
}
use pymaid.Rpc.Connection.Spec.{Act}
use pymaid.Rpc.Connection.Refinement.{act_of}
use pymaid.Rpc.Connection.Reactions.{
  numbers, in_turn, perform_last, called_and_deleted, fail_all, emptied, cleanup_reacting,
  close_reacting, react_turn, react_turns,
}

-- The code returns and leaves the connection as it is.
abbrev pub returns : {M : Type 0} → Conn M → Step M
returns conn = record { result = ok tt; conn = conn; events = [] }

module _ (env : Env) (reacts : Event → Conn env.jspb.Message → Step env.jspb.Message)
    (quiet : (e : Event) (conn : Conn env.jspb.Message) → reacts e conn ≡ returns conn) where
  open env use {jspb}

  abbrev following : Step jspb.Message → (Conn jspb.Message → Step jspb.Message) → Step jspb.Message
  following = in_turn env reacts

  abbrev behind : Event → Step jspb.Message → Step jspb.Message
  behind e s = record s { events = e ∷ s.events }

  -- What is done after a step that has one event in front is done after the step.
  following-behind :
      (e : Event) (conn : Conn jspb.Message) (events : List Event)
      (next : Conn jspb.Message → Step jspb.Message) (r : Result (Unit {0}))
      → following (record { result = r; conn = conn; events = e ∷ events }) next
        ≡ behind e (following (record { result = r; conn = conn; events = events }) next)
  following-behind e conn events next (ok u) = refl
  following-behind e conn events next (throw x) = refl
  following-behind e conn events next unfinished = refl

  -- The loop of `cleanup` over the open requests calls and deletes one after the other.
  fail_all_lem :
      (reason : Text) (conn : Conn jspb.Message) (t : List (ℕ × Closure jspb.Message))
      → following
          (fail_all env reacts reason (numbers t) (record conn { transmissions = t }))
          (emptied env reacts)
        ≡ cleanup_from env reason conn t
  unfolding fail_all cleanup_from waiting forget
  fail_all_lem reason conn [] = refl
  fail_all_lem reason conn ((tid, closure) ∷ t) =
      let same : (tid == tid) ≡ true = ground arith in
      rw same (by_result (fail_closure env reason closure) (fail_all_lem reason conn t))
    where
      by_result :
          (r : Result (Argument × Argument))
          → following
              (fail_all env reacts reason (numbers t) (record conn { transmissions = t }))
              (emptied env reacts)
            ≡ cleanup_from env reason conn t
          → following
              (following
                (called_and_deleted env reacts tid closure.cb r
                  (record conn { transmissions = (tid, closure) ∷ t }))
                (fail_all env reacts reason (numbers t)))
              (emptied env reacts)
            ≡ after_failing env
                (record conn { transmissions = (tid, closure) ∷ t })
                (tid, closure)
                (cleanup_from env reason conn t)
                r
      by_result (ok args) h =
          let same : (tid == tid) ≡ true = ground arith in
          let e = called closure.cb args.0 args.1 in
          let left = fail_all env reacts reason (numbers t) (record conn { transmissions = t }) in
          rw (quiet e (record conn { transmissions = (tid, closure) ∷ t }), same)
            (following-behind e left.conn left.events (emptied env reacts) left.result
              ∙ ap (behind e) h)
      by_result (throw e) h = refl
      by_result unfinished h = refl

  cleanup_lem :
      (reason : Text) (conn : Conn jspb.Message)
      → cleanup_reacting env reacts reason conn ≡ cleanup env reason conn
  unfolding cleanup_reacting cleanup
  cleanup_lem reason conn = fail_all_lem reason conn conn.transmissions

  -- A step that ends with the call of at most one callback, which is its only event.
  abbrev CallsLast : Step jspb.Message → Type 0
  CallsLast s = perform_last env reacts s.events s ≡ s

  answered-CallsLast :
      (conn : Conn jspb.Message) (cb : ℕ) (r : Result (Argument × Argument))
      → CallsLast (answered env conn cb r)
  answered-CallsLast conn cb (ok args) = rw (quiet (called cb args.0 args.1) conn) refl
  answered-CallsLast conn cb (throw e) = refl
  answered-CallsLast conn cb unfinished = refl

  on_response-CallsLast :
      (context : Value) (content : Bytes) (conn : Conn jspb.Message)
      → CallsLast (on_response env context content conn)
  unfolding on_response
  on_response-CallsLast context content conn =
      elim (Option-cases (number_of env (property (codes "transmission_id") context))) [
        | inl e ↦ rw (e, on_response) refl
        | inr (tid, e) ↦ elim (Option-cases (waiting tid conn.transmissions)) [
          | inl e' ↦ rw (e, e', on_response) refl
          | inr (closure, e') ↦
              rw (e, e', on_response)
                (answered-CallsLast (record conn { transmissions = forget tid conn.transmissions })
                  closure.cb (deliver env closure context content))
        ]
      ]

  on_packet-CallsLast :
      (l : Listener jspb.Message) (conn : Conn jspb.Message) (r : Result Packet)
      → CallsLast (on_packet env (listen env l) conn r)
  on_packet-CallsLast l conn (ok packet) =
      if_cases CallsLast (is_number response_packet (property (codes "packet_type") packet.context))
        _ _ (λ response. on_response-CallsLast packet.context packet.content conn)
        λ other.
          if_cases CallsLast conn.attached _ _
            (λ there.
              listen_cases env (λ r. CallsLast (heard env conn r)) refl
                (λ service method c req. rw (quiet (invoked service method c req) conn) refl)
                (λ e. refl) refl l packet.context packet.content)
            (λ gone. refl)
  on_packet-CallsLast l conn (throw e) = refl
  on_packet-CallsLast l conn unfinished = refl

  react_turn_lem :
      (turn : Turn jspb.Message) (conn : Conn jspb.Message)
      → react_turn env reacts turn conn ≡ take_turn env turn conn
  unfolding react_turn take_turn close_reacting close_connection on_message
  react_turn_lem opens conn =
      let live = record conn { is_closed = false; ready = true } in
      ap (if_attached env conn.attached live) (quiet (opened conn.connid) live)
  react_turn_lem (calls service name method req cb) conn = refl
  react_turn_lem (receives l bytes) conn = on_packet-CallsLast l conn _
  react_turn_lem (closes reason) conn = ap (behind (ws_close conn.connid)) (cleanup_lem reason conn)
  react_turn_lem (ends evt) conn =
      let shut = record conn { is_closed = true } in
      let same : in_turn env reacts (reacts (closed conn.connid) shut)
            (cleanup_reacting env reacts evt)
          ≡ cleanup env evt shut =
        rw (quiet (closed conn.connid) shut) (cleanup_lem evt shut) in
      ap (λ s. if_attached env conn.attached shut (detached env s)) same

  pub react_turns_lem :
      (turns : List (Turn jspb.Message)) (conn : Conn jspb.Message)
      → react_turns env reacts turns conn ≡ run_turns env turns conn
  unfolding react_turns run_turns
  react_turns_lem [] conn = refl
  react_turns_lem (turn ∷ turns) conn =
      rw (react_turn_lem turn conn, react_turns_lem turns (take_turn env turn conn).conn) refl

  -- The acts of a run, and which of them did not throw.
  abbrev pub acts_reacting : List (Turn jspb.Message) → Conn jspb.Message → List (Act × Bool)
  acts_reacting [] conn = []
  acts_reacting (turn ∷ turns) conn =
      let s = react_turn env reacts turn conn in
      (act_of env turn, is_ok s.result) ∷ acts_reacting turns s.conn

  -- If the code that is called at once returns and leaves the connection alone: a callback of a new
  -- connection is called, at once or by a timer, at most as often as it was passed to a call.
  pub fired-react_turns :
      (cb connid : ℕ) (address : Text) (turns : List (Turn jspb.Message))
      → fired cb (react_turns env reacts turns (new_connection connid address)).events
        ≤ asks env cb turns
  fired-react_turns cb connid address turns =
      rw (react_turns_lem turns (new_connection connid address))
        (fired-le-asks env cb connid address turns)

  -- If the code that is called at once returns and leaves the connection alone: when a new connection is
  -- closed after turns of which none threw, each callback has been called exactly as often as it was
  -- passed to a call. (The text of the reason has a UTF-8 form, and the fuel is at least 9.)
  pub fired-close_reacting :
      MessageLaws jspb
      → WireLaws jspb
      → (cb connid : ℕ) (address reason : Text) (turns : List (Turn jspb.Message)) → 9 ≤ env.fuel
      → IsWellFormed (closing_message env reason)
      → let before = react_turns env reacts turns (new_connection connid address) in
        before.clean ≡ true
        → fired cb (before.events ++ (close_reacting env reacts reason before.conn).events)
          ≡ asks env cb turns
  unfolding close_reacting close_connection
  fired-close_reacting laws wire_laws cb connid address reason turns enough well =
      rw
        (
          react_turns_lem turns (new_connection connid address),
          cleanup_lem reason (run_turns env turns (new_connection connid address)).conn,
        )
        (fired-close env cb laws wire_laws connid address reason turns enough well)
