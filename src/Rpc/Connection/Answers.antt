-- ===== src/Rpc/Connection/Answers.antt =====
-- How responses find their callbacks.
use pymaid.Prelude.{
  ℕ, ◌+◌, ◌≤◌, ◌<◌, ◌^◌, ◌≡◌, refl, List, [], ◌∷◌, Bytes, eq_text, length, ◌==◌, false,
  if◌then◌else◌, none, some, Result, ok, arith,
}
use pymaid.Js.{Value, get}
use pymaid.Jspb.Laws.{MessageLaws, WireLaws}
use pymaid.Parser.{pack}
use pymaid.Parser.RoundTrip.{unpack-pack_small}
use pymaid.Pb.Context.Contents.{Contents, InRange, Holds}
use pymaid.Pb.Context.{response_packet}
use pymaid.Api.{context_type, serialize, deserialize, instance_of}
use pymaid.Api.Contexts.{context_object, deserialize-serialize_context}
use pymaid.Rpc.Env.{Env, Argument, Event, called}
use pymaid.Rpc.Connection.{Conn, Closure, waiting, forget, await, deliver}
use pymaid.Rpc.Connection.Inbound.{on_message, on_response, heard}
use pymaid.Rpc.Connection.Pending.{Rising, IsSound}

module _ {ℓ} {A : Type ℓ} where
  pub waiting_below :
      (lo hi tid : ℕ) (t : List (ℕ × A)) → Rising lo hi t → tid < lo → waiting tid t ≡ none
  unfolding waiting
  waiting_below lo hi tid [] h below = refl
  waiting_below lo hi tid ((i, a) ∷ t) h below = ground (arith, waiting_below (i + 1) hi tid t h.1)

  Rising-le : (lo hi : ℕ) (t : List (ℕ × A)) → Rising lo hi t → lo ≤ hi
  Rising-le lo hi [] h = h
  Rising-le lo hi ((i, a) ∷ t) h = omega (arith, Rising-le (i + 1) hi t h.1)

  -- The next number is not yet taken.
  pub waiting_above :
      (lo hi tid : ℕ) (t : List (ℕ × A)) → Rising lo hi t → hi ≤ tid → waiting tid t ≡ none
  unfolding waiting
  waiting_above lo hi tid [] h above = refl
  waiting_above lo hi tid ((i, a) ∷ t) h above =
      ground (arith, waiting_above (i + 1) hi tid t h.1 above, Rising-le (i + 1) hi t h.1)

  pub waiting-forget :
      (lo hi tid k : ℕ) (t : List (ℕ × A))
      → Rising lo hi t
      → waiting k (forget tid t) ≡ (if k == tid then none else waiting k t)
  unfolding waiting forget
  waiting-forget lo hi tid k [] h = ground arith
  waiting-forget lo hi tid k ((i, a) ∷ t) h =
      ground (arith, waiting-forget (i + 1) hi tid k t h.1, waiting_below (i + 1) hi tid t h.1)

  pub waiting-await :
      (tid k : ℕ) (a : A) (t : List (ℕ × A))
      → waiting k (await tid a t)
        ≡ elim (waiting k t) [ some b ↦ some b | none ↦ if tid == k then some a else none ]
  unfolding waiting
  waiting-await tid k a [] = refl
  waiting-await tid k a ((i, b) ∷ t) = ground (arith, waiting-await tid k a t)

module _ {M : Type 0} where
  -- The number that a call takes is its own.
  pub waiting-await_next :
      (conn : Conn M) (closure : Closure M)
      → IsSound conn
      → waiting conn.transmission_id (await conn.transmission_id closure conn.transmissions)
        ≡ some closure
  unfolding waiting
  waiting-await_next conn closure sound =
      rw
        (
          waiting-await conn.transmission_id conn.transmission_id closure conn.transmissions,
          waiting_above 0 conn.transmission_id conn.transmission_id conn.transmissions sound
              (omega arith),
        )
        (ground arith)

-- The connection without the open request `tid`.
abbrev pub taken : {M : Type 0} → Conn M → ℕ → Conn M
taken conn tid = record conn { transmissions = forget tid conn.transmissions }

module _ (env : Env) (laws : MessageLaws env.jspb) (wire_laws : WireLaws env.jspb) where
  open env use {jspb, fuel}

  pub on_response_lem :
      (d : Contents) (content : Bytes) (conn : Conn jspb.Message) (closure : Closure jspb.Message)
      (err resp : Argument)
      → waiting d.transmission_id conn.transmissions ≡ some closure
      → deliver env closure (context_object d) content ≡ ok (err, resp)
      → on_response env (context_object d) content conn ≡ record {
        result = ok tt;
        conn = taken conn d.transmission_id;
        events = called closure.cb err resp ∷ [];
      }
  unfolding on_response get eq_text
  on_response_lem d content conn closure err resp there done = rw (there, on_response) (rw done)

  read_head :
      (m : jspb.Message) (d : Contents) (head : Bytes)
      → 9 ≤ fuel
      → Holds jspb m d
      → InRange d
      → serialize (instance_of (context_type jspb) m) ≡ ok head
      → deserialize fuel (context_type jspb) head ≡ ok (context_object d)
  read_head m d head enough holds range written =
      let (head', e, read) =
        deserialize-serialize_context jspb laws wire_laws fuel m d enough holds range in
      let same : head' ≡ head = cc in rw (← same) read

  -- A response, if the Context in front of it is read.
  pub on_message-read :
      (listen : Value → Bytes → Result (List Event)) (d : Contents) (head content : Bytes)
      (conn : Conn jspb.Message)
      → deserialize fuel (context_type jspb) head ≡ ok (context_object d)
      → d.packet_type ≡ response_packet
      → length head < 2 ^ 16
      → length content < 2 ^ 16
      → on_message env listen (pack head content) conn
        ≡ on_response env (context_object d) content conn
  unfolding on_message get eq_text
  on_message-read listen d head content conn read kind small short = rw (
    unpack-pack_small (deserialize fuel (context_type jspb)) head content small short,
    read,
    kind,
  )

  -- Any other packet is the listener's, if the connection has a channel.
  pub on_message-heard :
      (listen : Value → Bytes → Result (List Event)) (d : Contents) (head content : Bytes)
      (conn : Conn jspb.Message)
      → deserialize fuel (context_type jspb) head ≡ ok (context_object d)
      → (d.packet_type == response_packet) ≡ false
      → length head < 2 ^ 16
      → length content < 2 ^ 16
      → on_message env listen (pack head content) conn ≡ (
          if conn.attached
          then heard env conn (listen (context_object d) content)
          else record { result = ok tt; conn = conn; events = [] })
  unfolding on_message get eq_text
  on_message-heard listen d head content conn read kind small short = rw (
    unpack-pack_small (deserialize fuel (context_type jspb)) head content small short,
    read,
    kind,
  )

  -- A response that is for an open request, with a body that the closure reads, calls this request's
  -- callback, and none else, and takes the request from the table; the other requests stay open.
  pub on_message_response :
      (listen : Value → Bytes → Result (List Event)) (m : jspb.Message) (d : Contents)
      (head content : Bytes) (conn : Conn jspb.Message) (closure : Closure jspb.Message)
      (err resp : Argument)
      → 9 ≤ fuel
      → Holds jspb m d
      → InRange d
      → d.packet_type ≡ response_packet
      → serialize (instance_of (context_type jspb) m) ≡ ok head
      → length head < 2 ^ 16
      → length content < 2 ^ 16
      → IsSound conn
      → waiting d.transmission_id conn.transmissions ≡ some closure
      → deliver env closure (context_object d) content ≡ ok (err, resp)
      → let s = on_message env listen (pack head content) conn in
        (s.result ≡ ok tt)
        × (s.events ≡ called closure.cb err resp ∷ [])
        × ((k : ℕ)
            → waiting k s.conn.transmissions
              ≡ (if k == d.transmission_id then none else waiting k conn.transmissions))
  on_message_response listen m d head content conn closure err resp enough holds range kind written
        small short sound there done =
      rw
        (
          on_message-read listen d head content conn (read_head m d head enough holds range written)
              kind small short,
          on_response_lem d content conn closure err resp there done,
        )
        (
          refl,
          refl,
          λ k. waiting-forget 0 conn.transmission_id d.transmission_id k conn.transmissions sound,
        )
