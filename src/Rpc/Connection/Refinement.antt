-- ===== src/Rpc/Connection/Refinement.antt =====
-- A connection keeps the promise of its table.
use pymaid.Prelude.{
  ℕ, ◌+◌, ◌<◌, ◌≡◌, ◌∙◌, sym, ap, refl, Bool, true, false, List, [], ◌∷◌, Text, Bytes, codes, ◌==◌,
  some, none, Option-cases, Bool-cases, if_cases, inl, inr, Result, ok, throw, unfinished, arith,
}
use pymaid.Js.{Value, is_number, property}
use pymaid.Parser.{Packet}
use pymaid.Pb.Context.{response_packet}
use pymaid.Rpc.Env.{Env, Argument}
use pymaid.Rpc.Listener.{Listener, listen}
use pymaid.Rpc.Listener.Heard.{listen_cases}
use pymaid.Rpc.Connection.{Conn, Closure, Step, new_connection, waiting, forget, deliver}
use pymaid.Rpc.Connection.Inbound.{on_message, on_response, on_packet, answered, heard, number_of}
use pymaid.Rpc.Connection.Cleanup.{
  cleanup, cleanup_from, close_connection, fail_closure, after_failing,
}
use pymaid.Rpc.Connection.Pending.{
  IsSound, Rising, call-IsSound, on_message-IsSound, cleanup-IsSound,
}
use pymaid.Rpc.Connection.Answers.{waiting_below}
use pymaid.Rpc.Connection.Runs.{
  Turn, opens, calls, receives, closes, ends, take_turn, run_turns, is_ok, detached,
  if_attached_cases,
}
use pymaid.Rpc.Connection.Spec.{
  Act, opening, hearing, calling, closing, Table, empty_table, released, Releases, done, release,
  NoneWaits, Follows, rests, acts, opens as opens_table, closes as closes_table, ignores,
  told_of-append, answers, loses, told_of,
}
use pymaid.Rpc.Connection.Agreement.{
  callback, Shows, Agrees, Refines, Shows-forget, call-Refines, needs_response,
}

module _ (env : Env) where
  open env use {jspb}

  answered-Refines :
      (conn : Conn jspb.Message) (tid : ℕ) (closure : Closure jspb.Message)
      (r : Result (Argument × Argument)) (t : Table)
      → IsSound conn
      → Agrees conn t
      → waiting tid conn.transmissions ≡ some closure
      → Refines env hearing t (
          answered env (record conn { transmissions = forget tid conn.transmissions }) closure.cb r)
  answered-Refines conn tid closure r t sound h there = by_result r
    where
      waits : t.waits tid ≡ some closure.cb
      waits = sym (h.1 tid) ∙ ap callback there

      agrees :
          Agrees (record conn { transmissions = forget tid conn.transmissions }) (released tid t)
      agrees = (h.0, Shows-forget env conn t tid sound h.1, h.2)

      by_result :
          (r : Result (Argument × Argument))
          → Refines env hearing t (
              answered env
                (record conn { transmissions = forget tid conn.transmissions })
                closure.cb
                r)
      by_result (ok args) = (released tid t, answers tid closure.cb waits, agrees)
      by_result (throw x) = (released tid t, loses tid closure.cb waits, agrees)
      by_result unfinished = (released tid t, loses tid closure.cb waits, agrees)

  on_response-Refines :
      (context : Value) (content : Bytes) (conn : Conn jspb.Message) (t : Table)
      → IsSound conn
      → Agrees conn t
      → Refines env hearing t (on_response env context content conn)
  unfolding on_response
  on_response-Refines context content conn t sound h =
      elim (Option-cases (number_of env (property (codes "transmission_id") context))) [
        | inl e ↦ rw (e, on_response) (t, ignores _, h)
        | inr (tid, e) ↦ elim (Option-cases (waiting tid conn.transmissions)) [
          | inl e' ↦ rw (e, e', on_response) (t, ignores _, h)
          | inr (closure, e') ↦
              rw (e, e', on_response)
                (answered-Refines conn tid closure (deliver env closure context content) t sound h
                  e')
        ]
      ]

  on_packet-Refines :
      (l : Listener jspb.Message) (conn : Conn jspb.Message) (r : Result Packet) (t : Table)
      → IsSound conn
      → Agrees conn t
      → Refines env hearing t (on_packet env (listen env l) conn r)
  on_packet-Refines l conn (ok packet) t sound h =
      if_cases (Refines env hearing t)
        (is_number response_packet (property (codes "packet_type") packet.context)) _ _
        (λ response. on_response-Refines packet.context packet.content conn t sound h)
        λ other.
          if_cases (Refines env hearing t) conn.attached _ _
            (λ there.
              listen_cases env (λ r. Refines env hearing t (heard env conn r)) (t, ignores _, h)
                (λ service method c req. (t, ignores _, h)) (λ e. (t, ignores _, h))
                (t, ignores _, h) l packet.context packet.content)
            (λ gone. (t, ignores _, h))
  on_packet-Refines l conn (throw e) t sound h = (t, ignores _, h)
  on_packet-Refines l conn unfinished t sound h = (t, ignores _, h)

  -- A loop of `cleanup` tells callbacks that wait, in order, and none waits if it does not throw.
  abbrev Clears : Table → Step jspb.Message → Type 0
  Clears t s =
      (t' : Table) × Releases t (told_of s.events) t'
      × Agrees s.conn t'
      × (is_ok s.result ≡ true → NoneWaits t')

  -- The transmissions that are left are those of the table.
  cleanup-Clears :
      (reason : Text) (conn : Conn jspb.Message) (lo : ℕ)
      (open_ones : List (ℕ × Closure jspb.Message)) (t : Table)
      → Rising lo conn.transmission_id open_ones
      → conn.transmission_id ≡ t.next
      → Shows open_ones t
      → conn.is_closed ≡ t.shut
      → Clears t (cleanup_from env reason conn open_ones)
  unfolding cleanup_from waiting
  cleanup-Clears reason conn lo [] t sound next h shut =
      (t, done, (next, h, shut), λ fine k. sym (h k))
  cleanup-Clears reason conn lo ((tid, closure) ∷ open_ones) t sound next h shut =
      failed (fail_closure env reason closure) _
        (cleanup-Clears reason conn (tid + 1) open_ones (released tid t) sound.1 next left shut)
    where
      behind : (k : ℕ) → k < tid + 1 → waiting k open_ones ≡ none
      behind k small = waiting_below (tid + 1) conn.transmission_id k open_ones sound.1 small

      left : Shows open_ones (released tid t)
      left k = elim (Bool-cases (k == tid)) [
        | inl same ↦ rw (same, behind k (ground arith)) refl
        | inr other ↦
            let turned : (tid == k) ≡ false = ground arith in rw other (rw turned at (h k))
      ]

      waits : t.waits tid ≡ some closure.cb
      waits = let same : (tid == tid) ≡ true = ground arith in sym (h tid) ∙ rw same refl

      first : (k : ℕ) → k < tid → t.waits k ≡ none
      first k small =
          let turned : (tid == k) ≡ false = ground arith in
          sym (h k) ∙ rw (turned, behind k (omega arith)) refl

      failed :
          (r : Result (Argument × Argument)) (rest : Step jspb.Message)
          → Clears (released tid t) rest
          → Clears t (
              after_failing env
                (record conn { transmissions = (tid, closure) ∷ open_ones })
                (tid, closure)
                rest
                r)
      failed (ok args) rest (t', moves, agrees, fine) =
          (t', release tid closure.cb waits first moves, agrees, fine)
      failed (throw e) rest clears = (t, done, (next, h, shut), λ fine. cc)
      failed unfinished rest clears = (t, done, (next, h, shut), λ fine. cc)

  -- The act that a turn is.
  abbrev pub act_of : Turn jspb.Message → Act
  act_of opens = opening
  act_of (calls service name method req cb) = calling (needs_response env method) cb
  act_of (receives l bytes) = hearing
  act_of (closes reason) = closing false
  act_of (ends evt) = closing true

  -- One turn of a connection whose open requests have numbers of their own.
  turn-Refines :
      (turn : Turn jspb.Message) (conn : Conn jspb.Message) (t : Table)
      → IsSound conn
      → Agrees conn t
      → Refines env (act_of turn) t (take_turn env turn conn)
  unfolding take_turn on_message cleanup close_connection
  turn-Refines opens conn t sound h =
      let live = record conn { is_closed = false; ready = true } in
      let opened = record t { shut = false } in
      if_attached_cases env (Refines env opening t) conn.attached live
        (record { result = ok tt; conn = live; events = [] })
        (opened, opens_table true, (h.0, h.1, refl)) (opened, opens_table false, (h.0, h.1, refl))
  turn-Refines (calls service name method req cb) conn t sound h =
      call-Refines env service name method req cb conn t sound h
  turn-Refines (receives l bytes) conn t sound h = on_packet-Refines l conn _ t sound h
  turn-Refines (closes reason) conn t sound h =
      let (t', moves, agrees, fine) =
        cleanup-Clears reason conn 0 conn.transmissions t sound h.0 h.1 h.2 in
      (t', closes_table false _ moves fine, agrees)
  turn-Refines (ends evt) conn t sound h =
      let shut = record conn { is_closed = true } in
      let ended = record t { shut = true } in
      let (t', moves, agrees, fine) =
        cleanup-Clears evt shut 0 conn.transmissions ended sound h.0 h.1 refl in
      if_attached_cases env (Refines env (closing true) t) conn.attached shut
        (detached env (cleanup env evt shut)) (t', closes_table true _ moves fine, agrees)
        (ended, closes_table true false done (λ fine. cc), (h.0, h.1, refl))

  turn-IsSound :
      (turn : Turn jspb.Message) (conn : Conn jspb.Message)
      → IsSound conn
      → IsSound (take_turn env turn conn).conn
  unfolding take_turn close_connection
  turn-IsSound opens conn sound =
      let live = record conn { is_closed = false; ready = true } in
      if_attached_cases env (λ s. IsSound s.conn) conn.attached live
        (record { result = ok tt; conn = live; events = [] }) sound sound
  turn-IsSound (calls service name method req cb) conn sound =
      call-IsSound env service name method req cb conn sound
  turn-IsSound (receives l bytes) conn sound =
      on_message-IsSound env (listen env l) bytes conn sound
  turn-IsSound (closes reason) conn sound = cleanup-IsSound env reason conn sound
  turn-IsSound (ends evt) conn sound =
      let shut = record conn { is_closed = true } in
      if_attached_cases env (λ s. IsSound s.conn) conn.attached shut
        (detached env (cleanup env evt shut)) (cleanup-IsSound env evt shut sound) sound

  -- The acts of a run, and which of them did not throw.
  abbrev pub acts_of : List (Turn jspb.Message) → Conn jspb.Message → List (Act × Bool)
  acts_of [] conn = []
  acts_of (turn ∷ turns) conn =
      let s = take_turn env turn conn in (act_of turn, is_ok s.result) ∷ acts_of turns s.conn

  turns-Follow :
      (turns : List (Turn jspb.Message)) (conn : Conn jspb.Message) (t : Table)
      → IsSound conn
      → Agrees conn t
      → (t' : Table) × Follows (acts_of turns conn) t (told_of (run_turns env turns conn).events) t'
        × Agrees (run_turns env turns conn).conn t'
  unfolding run_turns
  turns-Follow [] conn t sound h = (t, rests, h)
  turns-Follow (turn ∷ turns) conn t sound h =
      let s = take_turn env turn conn in
      let (t1, first, agrees) = turn-Refines turn conn t sound h in
      let (t2, second, agrees') =
        turns-Follow turns s.conn t1 (turn-IsSound turn conn sound) agrees in
      (
        t2,
        rw (told_of-append s.events (run_turns env turns s.conn).events) (acts first second),
        agrees',
      )

  -- Whatever is called, received and closed on a new connection whose callbacks leave it alone while they
  -- are called, each turn tells the callbacks that its act tells from the table: a call that needs a
  -- response waits under the next number, one that needs none is told by a timer, as is any call on a
  -- connection that has ended, a response tells the callback of its number and no other, and closing tells
  -- all that wait, in the order of their numbers. The connection is left with the table's numbers and
  -- callbacks.
  pub run_turns-Follows :
      (connid : ℕ) (address : Text) (turns : List (Turn jspb.Message))
      → let conn = new_connection connid address in
        let trace = run_turns env turns conn in
        (t : Table) × Follows (acts_of turns conn) empty_table (told_of trace.events) t
        × Agrees trace.conn t
  unfolding new_connection waiting
  run_turns-Follows connid address turns =
      turns-Follow turns (new_connection connid address) empty_table (omega arith)
        (refl, λ k. refl, refl)
