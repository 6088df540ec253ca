-- ===== src/Server/Exchange/Requests.antt =====
-- What the server makes of a call of the client.
use pymaid.Prelude.{
  ℕ, ◌+◌, ◌%◌, ◌≤◌, ◌<◌, ◌^◌, ◌≡◌, refl, ap, ◌∙◌, ◌++◌, List, [], ◌∷◌, Text, Bytes, length,
  IsWellFormed, Bool, true, false, Option, some, none, Result, ok, throw, unfinished, if◌then◌else◌,
  ◌>>=◌, fmap, ◌==◌, arith, append-nil, attribute_error, Bool-cases, inl, inr,
}
use pymaid.Jspb.Laws.{MessageLaws, WireLaws}
use pymaid.Parser.{pack}
use pymaid.Parser.RoundTrip.{pack_layout}
use pymaid.Pb.Context.Contents.{Contents}
use pymaid.Api.{context_type, serialize, instance_of, same_type, void_type}
use pymaid.Api.Contexts.{request_contents, request_contents-InRange, request_message}
use pymaid.Rpc.Env.{Env, Method}
use pymaid.Rpc.Listener.{find}
use pymaid.Rpc.Connection.{Conn, Request, as_message, call, waiting, await}
use pymaid.Rpc.Connection.Requests.{waits, call_packs}
use pymaid.Server.Protocol.{MessageClass}
use pymaid.Server.Protocol.Packets.{Stream-packed, packed, decode-nil}
use pymaid.Server.Protocol.Streams.{feed_data-Stream}
use pymaid.Server.Contexts.{
  ServerMethod, Inbound, is_empty, new_inbound, feed_message, new_inbound_context, renew,
  recv_message,
}
use pymaid.Server.Connection.{Work, Server, run, feed_one, feed_messages, data_received}
use pymaid.Server.Exchange.{WireFormat, IsOdd}

-- A server that has taken all that it got.
abbrev pub at_rest : {M : Type 0} → Work M → Server M
at_rest work = record { read_buffer = []; work = work }

module _ {M : Type 0} (metas : MessageClass Contents) (routes : List (Text × ServerMethod M))
    (initiative : Bool) where
  -- One packet, and nothing before it.
  pub data_received-pack :
      (head body : Bytes) (d : Contents) (server : Server M)
      → length head < 2 ^ 16
      → length body ≤ 8192
      → metas.from_string head ≡ ok d
      → server.read_buffer ≡ []
      → data_received metas routes initiative (pack head body) server
        ≡ fmap at_rest (feed_one metas routes initiative (d, body) server.work)
  unfolding data_received feed_messages
  data_received-pack head body d server small short reads idle =
      let whole : packed metas ((head, d, body) ∷ []) ++ [] ≡ pack head body =
        append-nil (pack head body ++ []) ∙ append-nil (pack head body) in
      let (k, fed, drops, within) = feed_data-Stream metas (
        rw whole at (
          Stream-packed metas ((head, d, body) ∷ []) [] ((small, short, reads), tt)
            (decode-nil metas))) in
      let size : length (pack head body) ≡ 4 + length (head ++ body) =
        rw (pack_layout head body) (omega arith) in
      let some_used : (k == 0) ≡ false = elim (Bool-cases (k == 0)) [
        | inl none_yet ↦
            let zero_used : k ≡ 0 = ground arith in
            let all : pack head body ≡ [] = rw zero_used at drops in
            absurd (let sizes = ap length all in omega arith)
        | inr used ↦ used
      ] in
      rw (idle, fed, some_used, drops)
        (one_only (feed_one metas routes initiative (d, body) server.work))
    where
      one_only : (r : Result (Work M)) → fmap at_rest (r >>= λ work. ok work) ≡ fmap at_rest r
      one_only (ok work) = refl
      one_only (throw e) = refl
      one_only unfinished = refl

renew-await :
    {M : Type 0} (tid : ℕ) (c c' : Inbound M) (t : List (ℕ × Inbound M))
    → waiting tid t ≡ none
    → renew tid c' (await tid c t) ≡ await tid c' t
unfolding renew waiting
renew-await tid c c' [] h = ground arith
renew-await tid c c' ((i, a) ∷ t) h = elim (Bool-cases (i == tid)) [
  | inl same ↦ absurd (let f = rw same at h in cc)
  | inr differ ↦ rw differ (ap (λ l. (i, a) ∷ l) (renew-await tid c c' t (rw differ at h)))
]

-- The context of a call, with what is in its queue, and a server's work with it.
abbrev pub opened : {M : Type 0} → ServerMethod M → ℕ → List (Option M) → Inbound M
opened method tid queue = record (new_inbound method tid) {
  request_queue = queue;
  request_fed_count = 1;
}

abbrev pub opens : {M : Type 0} → ServerMethod M → ℕ → List (Option M) → Work M → Work M
opens method tid queue work = record {
  contexts = await tid (opened method tid queue) work.contexts;
  tasks = work.tasks ++ run tid ∷ [];
}

module _ {M : Type 0} (metas : MessageClass Contents) (routes : List (Text × ServerMethod M))
    (service_method : Text) (method : ServerMethod M) (tid : ℕ) (work : Work M)
    (served : find service_method routes ≡ some method)
    (fresh : waiting tid work.contexts ≡ none) where
  feed_one-odd :
      (body : Bytes) (request : M)
      → IsOdd tid
      → (method.request_class).from_string body ≡ ok request
      → feed_one metas routes false (request_contents service_method tid, body) work
        ≡ ok (opens method tid (if is_empty body then [] else some request ∷ []) work)
  unfolding feed_one feed_message new_inbound_context new_inbound
  feed_one-odd [] request odd reads =
      rw (fresh, served, odd) (rw (renew-await tid _ _ work.contexts fresh))
  feed_one-odd (b ∷ body) request odd reads =
      rw (fresh, served, odd, reads) (rw (renew-await tid _ _ work.contexts fresh))

  feed_one-even :
      (body : Bytes)
      → (tid % 2 == 1) ≡ false
      → feed_one metas routes false (request_contents service_method tid, body) work
        ≡ throw attribute_error
  unfolding feed_one new_inbound_context
  feed_one-even body even = rw (fresh, served, even)

module _ (env : Env) (laws : MessageLaws env.jspb) (wire_laws : WireLaws env.jspb) {M : Type 0}
    (metas : MessageClass Contents) (format : WireFormat env.jspb wire_laws metas)
    (routes : List (Text × ServerMethod M)) where
  open env use {jspb, fuel}

  module _ (service name : Text) (method : Method jspb.Message) (req : Request jspb.Message)
      (cb : ℕ) (conn : Conn jspb.Message) (m : jspb.Message) (body : Bytes) (server : Server M)
      (served_by : ServerMethod M) (enough : 9 ≤ fuel) (small : conn.transmission_id < 2 ^ 32)
      (well : IsWellFormed (service ++ b'.' ∷ name)) (typed : as_message env method req ≡ ok m)
      (written : serialize (instance_of method.input_type m) ≡ ok body)
      (heads : (head : Bytes)
        → serialize (
            instance_of
              (context_type jspb)
              (request_message jspb laws (service ++ b'.' ∷ name) conn.transmission_id))
          ≡ ok head
        → length head < 2 ^ 16)
      (short : length body ≤ 8192) (answer : same_type method.output_type (void_type jspb) ≡ false)
      (live : conn.is_closed ≡ false) (open_socket : conn.ready ≡ true)
      (idle : server.read_buffer ≡ [])
      (served : find (service ++ b'.' ∷ name) routes ≡ some served_by)
      (fresh : waiting conn.transmission_id server.work.contexts ≡ none) where
    -- The call sends a packet, and the server makes `outcome` of it.
    abbrev pub SendsFor : Result (Server M) → Type 0
    SendsFor outcome =
        (packet : Bytes) × (call env service name method req (some cb) conn
          ≡ waits method cb packet conn)
        × (data_received metas routes false packet server ≡ outcome)

    call_received :
        (outcome : Result (Work M))
        → feed_one metas routes false
            (request_contents (service ++ b'.' ∷ name) conn.transmission_id, body)
            server.work
          ≡ outcome
        → SendsFor (fmap at_rest outcome)
    call_received outcome fed =
        let (head, head_written, (p, fits), called) =
          call_packs env laws wire_laws service name method req cb conn m body enough small well
            typed written answer live open_socket in
        let d = request_contents (service ++ b'.' ∷ name) conn.transmission_id in
        let reads = format.reads head d (request_contents-InRange _ _ small well) p in
        (
          pack head body,
          called,
          data_received-pack metas routes false head body d server (heads head head_written) short
                reads idle
              ∙ rw fed,
        )

    -- A call with an odd number and a request of some bytes: the server opens a context under the number,
    -- and its method gets the request.
    pub call_opens :
        (request : M)
        → IsOdd conn.transmission_id
        → is_empty body ≡ false
        → (served_by.request_class).from_string body ≡ ok request
        → SendsFor
            (ok (at_rest (opens served_by conn.transmission_id (some request ∷ []) server.work)))
          × (recv_message (opened served_by conn.transmission_id (some request ∷ []))
              ≡ ok (
                  some (
                    some request,
                    record (opened served_by conn.transmission_id []) {
                      request_received_count = 1;
                    },
                  )))
    unfolding recv_message new_inbound
    call_opens request odd full parsed = (
      call_received (ok (opens served_by conn.transmission_id (some request ∷ []) server.work)) (
          feed_one-odd metas routes _ served_by conn.transmission_id server.work served fresh body
            request odd parsed
          ∙ rw full),
      refl,
    )

    -- A call with an odd number and a request of no bytes, such as a message whose fields have their
    -- defaults: the server opens a context, but its method gets no request and waits.
    pub call_waits :
        (request : M)
        → IsOdd conn.transmission_id
        → is_empty body ≡ true
        → (served_by.request_class).from_string body ≡ ok request
        → SendsFor (ok (at_rest (opens served_by conn.transmission_id [] server.work)))
          × (recv_message (opened served_by conn.transmission_id []) ≡ ok none)
    unfolding recv_message new_inbound
    call_waits request odd empty parsed = (
      call_received (ok (opens served_by conn.transmission_id [] server.work)) (
          feed_one-odd metas routes _ served_by conn.transmission_id server.work served fresh body
            request odd parsed
          ∙ rw empty),
      refl,
    )

    -- A call with an even number, as is the first of each connection, raises an AttributeError in the server,
    -- where the class of the error that is meant is not defined.
    pub call_refused : (conn.transmission_id % 2 == 1) ≡ false → SendsFor (throw attribute_error)
    call_refused even = call_received (throw attribute_error) (
        feed_one-even metas routes _ served_by conn.transmission_id server.work served fresh body
          even)
