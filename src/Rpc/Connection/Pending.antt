-- ===== src/Rpc/Connection/Pending.antt =====
-- The table of open transmissions.
use pymaid.Prelude.{
  ℕ, ◌+◌, ◌≤◌, ◌≡◌, refl, Bool, true, false, List, [], ◌∷◌, Text, Bytes, codes, ◌==◌, Option, none,
  some, Result, ok, throw, unfinished, arith, Bool-cases, Option-cases, if_cases, inl, inr,
}
use pymaid.Js.{Value, is_number, property}
use pymaid.Parser.{Packet}
use pymaid.Pb.Context.{response_packet}
use pymaid.Rpc.Env.{Env, Method, Event, Argument}
use pymaid.Api.{same_type, void_type}
use pymaid.Rpc.Connection.{
  Conn, Closure, Step, Request, forget, await, call, request, deliver, if_packed,
}
use pymaid.Rpc.Connection.Inbound.{
  on_message, on_response, answered, heard, on_packet, waiting_value,
}
use pymaid.Rpc.Connection.Cleanup.{cleanup, cleanup_from, after_failing}

-- The numbers rise along the table, from `lo` on, and stay below `hi`.
abbrev pub Rising {ℓ} : {A : Type ℓ} → ℕ → ℕ → List (ℕ × A) → Type 0
Rising lo hi [] = lo ≤ hi
Rising lo hi ((i, a) ∷ t) = (lo ≤ i) × Rising (i + 1) hi t

-- No two open requests share a number, and none has the number that is next.
abbrev pub IsSound : {M : Type 0} → Conn M → Type 0
IsSound conn = Rising 0 conn.transmission_id conn.transmissions

module _ {ℓ} {A : Type ℓ} where
  Rising-await :
      (lo hi : ℕ) (a : A) (t : List (ℕ × A)) → Rising lo hi t → Rising lo (hi + 1) (await hi a t)
  Rising-await lo hi a [] h = (h, omega arith)
  Rising-await lo hi a ((i, b) ∷ t) h = (h.0, Rising-await (i + 1) hi a t h.1)

  Rising-wider :
      (lo lo' hi hi' : ℕ) (t : List (ℕ × A))
      → lo' ≤ lo
      → hi ≤ hi'
      → Rising lo hi t
      → Rising lo' hi' t
  Rising-wider lo lo' hi hi' [] p q h = omega arith
  Rising-wider lo lo' hi hi' ((i, a) ∷ t) p q h =
      (omega arith, Rising-wider (i + 1) (i + 1) hi hi' t (omega arith) q h.1)

  Rising-forget : (lo hi tid : ℕ) (t : List (ℕ × A)) → Rising lo hi t → Rising lo hi (forget tid t)
  unfolding forget
  Rising-forget lo hi tid [] h = h
  Rising-forget lo hi tid ((i, a) ∷ t) h = elim (Bool-cases (i == tid)) [
    | inl same ↦ rw same (Rising-wider (i + 1) lo hi hi t (omega arith) (omega arith) h.1)
    | inr other ↦ rw other (h.0, Rising-forget (i + 1) hi tid t h.1)
  ]

module _ (env : Env) where
  open env use {jspb}

  abbrev pub Kept : Step jspb.Message → Type 0
  Kept s = IsSound s.conn

  numbered-IsSound :
      (method : Method jspb.Message) (cb : ℕ) (conn : Conn jspb.Message) (r : Result Bytes)
      (b : Bool)
      → conn.ready ≡ b
      → IsSound conn
      → IsSound
          (if_packed env method cb conn.transmission_id
            (record conn { transmission_id = conn.transmission_id + 1 })
            true
            r).conn
  numbered-IsSound method cb conn (ok packet) true e h =
      rw e (Rising-await 0 conn.transmission_id _ conn.transmissions h)
  numbered-IsSound method cb conn (ok packet) false e h =
      rw e (Rising-wider 0 0 _ _ conn.transmissions (omega arith) (omega arith) h)
  numbered-IsSound method cb conn (throw x) b e h =
      Rising-wider 0 0 _ _ conn.transmissions (omega arith) (omega arith) h
  numbered-IsSound method cb conn unfinished b e h =
      Rising-wider 0 0 _ _ conn.transmissions (omega arith) (omega arith) h

  -- A call of a method with no response leaves the connection as it was.
  notice_conn :
      (method : Method jspb.Message) (cb tid : ℕ) (conn : Conn jspb.Message) (r : Result Bytes)
      (b : Bool)
      → conn.ready ≡ b
      → (if_packed env method cb tid conn false r).conn ≡ conn
  notice_conn method cb tid conn (ok packet) true e = rw e
  notice_conn method cb tid conn (ok packet) false e = rw e
  notice_conn method cb tid conn (throw x) b e = refl
  notice_conn method cb tid conn unfinished b e = refl

  -- However a call ends, open requests keep distinct numbers below the next one.
  pub call-IsSound :
      (service name : Text) (method : Method jspb.Message) (req : Request jspb.Message)
      (cb : Option ℕ) (conn : Conn jspb.Message)
      → IsSound conn
      → IsSound (call env service name method req cb conn).conn
  unfolding call request
  call-IsSound service name method req none conn h = h
  call-IsSound service name method req (some cb) conn h =
      if_cases Kept conn.is_closed _ _ (λ shut. h)
        λ live.
          if_cases Kept (same_type method.output_type (void_type jspb)) _ _
            (λ void. rw (notice_conn method cb conn.transmission_id conn _ conn.ready refl) h)
            (λ answer. numbered-IsSound method cb conn _ conn.ready refl h)

  after_failing-IsSound :
      (conn : Conn jspb.Message) (entry : ℕ × Closure jspb.Message) (rest : Step jspb.Message)
      (r : Result (Argument × Argument))
      → IsSound conn
      → Kept rest
      → Kept (after_failing env conn entry rest r)
  after_failing-IsSound conn entry rest (ok args) h k = k
  after_failing-IsSound conn entry rest (throw e) h k = h
  after_failing-IsSound conn entry rest unfinished h k = h

  cleanup_from-IsSound :
      (reason : Text) (conn : Conn jspb.Message) (open_ones : List (ℕ × Closure jspb.Message))
      → Rising 0 conn.transmission_id open_ones
      → Kept (cleanup_from env reason conn open_ones)
  unfolding cleanup_from
  cleanup_from-IsSound reason conn [] h = h
  cleanup_from-IsSound reason conn ((i, c) ∷ t) h =
      after_failing-IsSound (record conn { transmissions = (i, c) ∷ t }) (i, c) _ _ h
        (cleanup_from-IsSound reason conn t (
          Rising-wider (i + 1) 0 conn.transmission_id conn.transmission_id t (omega arith)
            (omega arith) h.1))

  pub cleanup-IsSound :
      (reason : Text) (conn : Conn jspb.Message) → IsSound conn → Kept (cleanup env reason conn)
  unfolding cleanup
  cleanup-IsSound reason conn h = cleanup_from-IsSound reason conn conn.transmissions h

  answered_conn :
      (conn : Conn jspb.Message) (cb : ℕ) (r : Result (Argument × Argument))
      → (answered env conn cb r).conn ≡ conn
  answered_conn conn cb (ok args) = refl
  answered_conn conn cb (throw e) = refl
  answered_conn conn cb unfinished = refl

  heard_conn : (conn : Conn jspb.Message) (r : Result (List Event)) → (heard env conn r).conn ≡ conn
  heard_conn conn (ok events) = refl
  heard_conn conn (throw e) = refl
  heard_conn conn unfinished = refl

  on_response-IsSound :
      (context : Value) (content : Bytes) (conn : Conn jspb.Message)
      → IsSound conn
      → IsSound (on_response env context content conn).conn
  unfolding on_response
  on_response-IsSound context content conn h =
      elim (Option-cases
        (waiting_value env (property (codes "transmission_id") context) conn.transmissions)) [
          | inl e ↦ rw (e, on_response) h
          | inr ((tid, closure), e) ↦
              rw (e, on_response)
                (rw (answered_conn _ closure.cb (deliver env closure context content))
                  (Rising-forget 0 conn.transmission_id tid conn.transmissions h))
        ]

  on_packet-IsSound :
      (listen : Value → Bytes → Result (List Event)) (conn : Conn jspb.Message) (r : Result Packet)
      → IsSound conn
      → IsSound (on_packet env listen conn r).conn
  on_packet-IsSound listen conn (ok packet) h =
      if_cases Kept (is_number response_packet (property (codes "packet_type") packet.context)) _ _
        (λ response. on_response-IsSound packet.context packet.content conn h)
        (λ other.
          if_cases Kept conn.attached _ _
            (λ there. rw (heard_conn conn (listen packet.context packet.content)) h) (λ gone. h))
  on_packet-IsSound listen conn (throw e) h = h
  on_packet-IsSound listen conn unfinished h = h

  -- So does any message from the server, also one that does not parse.
  pub on_message-IsSound :
      (listen : Value → Bytes → Result (List Event)) (bytes : Bytes) (conn : Conn jspb.Message)
      → IsSound conn
      → IsSound (on_message env listen bytes conn).conn
  unfolding on_message
  on_message-IsSound listen bytes conn h = on_packet-IsSound listen conn _ h
