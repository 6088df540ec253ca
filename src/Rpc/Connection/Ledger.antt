-- ===== src/Rpc/Connection/Ledger.antt =====
-- How often the callbacks of a connection are called.
use pymaid.Prelude.{
  codes, ℕ, ◌+◌, ◌≤◌, ◌≡◌, refl, Bool, true, false, List, [], ◌∷◌, Text, Bytes, ◌==◌, if◌then◌else◌,
  if_cases, Option, some, none, Option-cases, inl, inr, Result, ok, throw, unfinished, arith,
}
use pymaid.Js.{Value, is_number, property}
use pymaid.Parser.{Packet}
use pymaid.Pb.Context.{response_packet}
use pymaid.Api.{same_type, void_type}
use pymaid.Rpc.Env.{
  Env, Method, Event, Argument, sent, ws_close, called, scheduled, invoked, opened, closed, failed,
}
use pymaid.Rpc.Listener.{Listener, listen}
use pymaid.Rpc.Listener.Heard.{listen_cases}
use pymaid.Rpc.Connection.{
  Conn, Closure, Step, Request, waiting, forget, await, call, request, if_packed, deliver,
}
use pymaid.Rpc.Connection.Inbound.{on_message, on_response, on_packet, answered, heard, number_of}
use pymaid.Rpc.Connection.Cleanup.{cleanup_from, fail_closure, after_failing}

abbrev pub matches : ℕ → ℕ → ℕ
matches cb k = if k == cb then 1 else 0

-- How often an event calls the callback `cb`, at once or later.
abbrev pub fires : ℕ → Event → ℕ
fires cb (called k err resp) = matches cb k
fires cb (scheduled k err resp) = matches cb k
fires cb (sent c bytes) = 0
fires cb (ws_close c) = 0
fires cb (invoked service method context req) = 0
fires cb (opened c) = 0
fires cb (closed c) = 0
fires cb (failed c) = 0

abbrev pub fired : ℕ → List Event → ℕ
fired cb [] = 0
fired cb (e ∷ events) = fires cb e + fired cb events

-- How many open requests wait with the callback `cb`.
abbrev pub open_for : {M : Type 0} → ℕ → List (ℕ × Closure M) → ℕ
open_for cb [] = 0
open_for cb ((tid, closure) ∷ t) = matches cb closure.cb + open_for cb t

module _ {M : Type 0} (cb : ℕ) where
  open_for-await :
      (tid : ℕ) (c : Closure M) (t : List (ℕ × Closure M))
      → open_for cb (await tid c t) ≡ open_for cb t + matches cb c.cb
  open_for-await tid c [] = omega arith
  open_for-await tid c ((i, b) ∷ t) = omega (arith, open_for-await tid c t)

  open_for-forget :
      (tid : ℕ) (c : Closure M) (t : List (ℕ × Closure M))
      → waiting tid t ≡ some c
      → open_for cb (forget tid t) + matches cb c.cb ≡ open_for cb t
  unfolding waiting forget
  open_for-forget tid c [] h = ground arith
  open_for-forget tid c ((i, b) ∷ t) h = ground (arith, open_for-forget tid c t)

module _ (env : Env) (cb : ℕ) where
  open env use {jspb}

  -- After the step, at most as many calls of `cb` were made or are due as were due before it and
  -- were asked for; if it did not throw, as many.
  abbrev pub Balanced : ℕ → Conn jspb.Message → Step jspb.Message → Type 0
  Balanced asked conn s =
      (fired cb s.events + open_for cb s.conn.transmissions
        ≤ open_for cb conn.transmissions + asked)
      × (s.result ≡ ok tt
          → fired cb s.events + open_for cb s.conn.transmissions
            ≡ open_for cb conn.transmissions + asked)

  packed-Balanced :
      (method : Method jspb.Message) (k : ℕ) (conn conn' : Conn jspb.Message) (needs ready : Bool)
      (r : Result Bytes)
      → conn'.transmissions ≡ conn.transmissions
      → conn'.ready ≡ ready
      → Balanced (matches cb k) conn (if_packed env method k conn.transmission_id conn' needs r)
  packed-Balanced method k conn conn' true true (ok packet) same e =
      let closure : Closure jspb.Message = record { output_type = method.output_type; cb = k } in
      let more = open_for-await cb conn.transmission_id closure conn.transmissions in
      rw (e, same) (omega arith, λ h. omega arith)
  packed-Balanced method k conn conn' false true (ok packet) same e =
      rw (e, same) (omega arith, λ h. omega arith)
  packed-Balanced method k conn conn' needs false (ok packet) same e =
      rw (e, same) (omega arith, λ h. cc)
  packed-Balanced method k conn conn' needs ready (throw x) same e = rw same (omega arith, λ h. cc)
  packed-Balanced method k conn conn' needs ready unfinished same e = rw same (omega arith, λ h. cc)

  -- How often a call asks for its callback: not at all, where it is none.
  abbrev pub asked_by : Option ℕ → ℕ
  asked_by none = 0
  asked_by (some k) = matches cb k

  pub call-Balanced :
      (service name : Text) (method : Method jspb.Message) (req : Request jspb.Message)
      (k : Option ℕ) (conn : Conn jspb.Message)
      → Balanced (asked_by k) conn (call env service name method req k conn)
  unfolding call request
  call-Balanced service name method req none conn = (omega arith, λ h. cc)
  call-Balanced service name method req (some k) conn =
      if_cases (Balanced (matches cb k) conn) conn.is_closed _ _
        (λ shut. (omega arith, λ h. omega arith))
        λ live.
          if_cases (Balanced (matches cb k) conn) (same_type method.output_type (void_type jspb)) _
            _ (λ void. packed-Balanced method k conn conn false conn.ready _ refl refl)
            (λ answer. packed-Balanced method k conn _ true conn.ready _ refl refl)

  answered-Balanced :
      (tid : ℕ) (closure : Closure jspb.Message) (conn : Conn jspb.Message)
      (r : Result (Argument × Argument))
      → waiting tid conn.transmissions ≡ some closure
      → Balanced 0 conn (
          answered env (record conn { transmissions = forget tid conn.transmissions }) closure.cb r)
  answered-Balanced tid closure conn (ok args) e =
      let fewer = open_for-forget cb tid closure conn.transmissions e in
      (omega arith, λ h. omega arith)
  answered-Balanced tid closure conn (throw x) e =
      let fewer = open_for-forget cb tid closure conn.transmissions e in (omega arith, λ h. cc)
  answered-Balanced tid closure conn unfinished e =
      let fewer = open_for-forget cb tid closure conn.transmissions e in (omega arith, λ h. cc)

  response-Balanced :
      (context : Value) (content : Bytes) (conn : Conn jspb.Message)
      → Balanced 0 conn (on_response env context content conn)
  unfolding on_response
  response-Balanced context content conn =
      elim (Option-cases (number_of env (property (codes "transmission_id") context))) [
        | inl e ↦ rw (e, on_response) (omega arith, λ h. omega arith)
        | inr (tid, e) ↦ elim (Option-cases (waiting tid conn.transmissions)) [
          | inl e' ↦ rw (e, e', on_response) (omega arith, λ h. omega arith)
          | inr (closure, e') ↦
              rw (e, e', on_response)
                (answered-Balanced tid closure conn (deliver env closure context content) e')
        ]
      ]

  -- A listener calls no callback of the caller.
  listen_fires :
      (l : Listener jspb.Message) (context : Value) (content : Bytes) (conn : Conn jspb.Message)
      → Balanced 0 conn (heard env conn (listen env l context content))
  listen_fires l context content conn =
      listen_cases env (λ r. Balanced 0 conn (heard env conn r)) (omega arith, λ h. omega arith)
        (λ service method c req. (omega arith, λ h. omega arith)) (λ e. (omega arith, λ h. cc))
        (omega arith, λ h. cc) l context content

  packet-Balanced :
      (l : Listener jspb.Message) (conn : Conn jspb.Message) (r : Result Packet)
      → Balanced 0 conn (on_packet env (listen env l) conn r)
  packet-Balanced l conn (ok packet) =
      if_cases (Balanced 0 conn)
        (is_number response_packet (property (codes "packet_type") packet.context)) _ _
        (λ response. response-Balanced packet.context packet.content conn)
        λ other.
          if_cases (Balanced 0 conn) conn.attached _ _
            (λ there. listen_fires l packet.context packet.content conn)
            (λ gone. (omega arith, λ h. omega arith))
  packet-Balanced l conn (throw e) = (omega arith, λ h. cc)
  packet-Balanced l conn unfinished = (omega arith, λ h. cc)

  pub message-Balanced :
      (l : Listener jspb.Message) (bytes : Bytes) (conn : Conn jspb.Message)
      → Balanced 0 conn (on_message env (listen env l) bytes conn)
  unfolding on_message
  message-Balanced l bytes conn = packet-Balanced l conn _

  pub cleanup-Balanced :
      (reason : Text) (conn : Conn jspb.Message) (open_ones : List (ℕ × Closure jspb.Message))
      → Balanced 0
          (record conn { transmissions = open_ones })
          (cleanup_from env reason conn open_ones)
  unfolding cleanup_from
  cleanup-Balanced reason conn [] = (omega arith, λ h. omega arith)
  cleanup-Balanced reason conn ((tid, closure) ∷ open_ones) =
      failing (fail_closure env reason closure) (cleanup-Balanced reason conn open_ones)
    where
      failing :
          (r : Result (Argument × Argument))
          → Balanced 0
              (record conn { transmissions = open_ones })
              (cleanup_from env reason conn open_ones)
          → Balanced 0
              (record conn { transmissions = (tid, closure) ∷ open_ones })
              (after_failing env
                (record conn { transmissions = (tid, closure) ∷ open_ones })
                (tid, closure)
                (cleanup_from env reason conn open_ones)
                r)
      failing (ok args) ih = (omega (arith, ih.0), λ h. omega (arith, ih.1 h))
      failing (throw e) ih = (omega arith, λ h. cc)
      failing unfinished ih = (omega arith, λ h. cc)
