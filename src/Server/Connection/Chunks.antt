-- ===== src/Server/Connection/Chunks.antt =====
-- The pieces in which data arrives do not matter to what the server makes of it.
use pymaid.Prelude.{
  ℕ, ◌≡◌, refl, sym, ap, ◌∙◌, ◌++◌, inl, inr, Bool, true, List, [], ◌∷◌, Text, Bytes, length, drop,
  append_assoc, append-nil, Result, ok, throw, unfinished, ◌>>=◌, ◌==◌, Bool-cases, arith,
}
use pymaid.Pb.Context.Contents.{Contents}
use pymaid.Server.Protocol.{MessageClass, feed_data}
use pymaid.Server.Protocol.Streams.{
  Stream, Stream-append, Stream-rest, Stream-feed_data, feed_data-Stream,
}
use pymaid.Server.Contexts.{ServerMethod}
use pymaid.Server.Connection.{
  Work, Server, feed_one, feed_messages, after_feeding, data_received, receive,
}

abbrev pub concat : List Bytes → Bytes
concat [] = []
concat (bytes ∷ chunks) = bytes ++ concat chunks

-- A call that returns has taken both of its steps.
both_returned :
    {A B : Type 0} {b : B} (then_next : A → Result B) (step : Result A)
    → (step >>= then_next) ≡ ok b
    → (a : A) × (step ≡ ok a) × (then_next a ≡ ok b)
both_returned then_next unfinished e = cc
both_returned then_next (throw x) e = cc
both_returned then_next (ok a) e = (a, refl, e)

module _ {M : Type 0} (metas : MessageClass Contents) (routes : List (Text × ServerMethod M))
    (initiative : Bool) where
  feed_messages-append :
      (first second : List (Contents × Bytes)) (work work' : Work M)
      → feed_messages metas routes initiative (first ++ second) work ≡ ok work'
      → (mid : Work M) × (feed_messages metas routes initiative first work ≡ ok mid)
        × (feed_messages metas routes initiative second mid ≡ ok work')
  unfolding feed_messages
  feed_messages-append [] second work work' e = (work, refl, e)
  feed_messages-append (m ∷ first) second work work' e =
      let (one, here, later) = both_returned _ (feed_one metas routes initiative m work) e in
      let (mid, more, rest) = feed_messages-append first second one work' later in
      (mid, rw here more, rest)

  none_used :
      (buffer : Bytes) (k : ℕ) (ms : List (Contents × Bytes))
      → Stream metas buffer ms (drop k buffer)
      → (k == 0) ≡ true
      → (ms ≡ []) × (drop k buffer ≡ buffer)
  none_used buffer k ms s none_yet =
      let zero_used : k ≡ 0 = ground arith in
      let same : drop k buffer ≡ buffer = ap (λ i. drop i buffer) zero_used in
      let shorter = (Stream-rest metas s).1 in
      (
        elim shorter [ inl e ↦ e | inr less ↦ absurd (let size = ap length same in omega arith) ],
        same,
      )

  after_feeding-eq-ok :
      (buffer : Bytes) (k : ℕ) (ms : List (Contents × Bytes)) (server server' : Server M)
      → Stream metas buffer ms (drop k buffer)
      → after_feeding metas routes initiative server buffer (k, ms) ≡ ok server'
      → (feed_messages metas routes initiative ms server.work ≡ ok server'.work)
        × (drop k buffer ≡ server'.read_buffer)
  unfolding feed_messages
  after_feeding-eq-ok buffer k ms server server' s e = elim (Bool-cases (k == 0)) [
    | inl none_yet ↦
        let (empty, same) = none_used buffer k ms s none_yet in
        let e' : record server { read_buffer = buffer } ≡ server' =
          let e0 = rw none_yet at e in cc in
        (
          rw empty (ap (λ (x : Server M). ok x.work) e'),
          same ∙ ap (λ (x : Server M). x.read_buffer) e',
        )
    | inr some_used ↦
        let (work, fed, e0) =
          both_returned _ (feed_messages metas routes initiative ms server.work)
            (rw some_used at e) in
        let e' : record server { read_buffer = drop k buffer; work = work } ≡ server' = cc in
        (fed ∙ ap (λ (x : Server M). ok x.work) e', ap (λ (x : Server M). x.read_buffer) e')
  ]

  after_feeding-ok :
      (buffer : Bytes) (k : ℕ) (ms : List (Contents × Bytes)) (server server' : Server M)
      → Stream metas buffer ms (drop k buffer)
      → feed_messages metas routes initiative ms server.work ≡ ok server'.work
      → drop k buffer ≡ server'.read_buffer
      → after_feeding metas routes initiative server buffer (k, ms) ≡ ok server'
  unfolding feed_messages
  after_feeding-ok buffer k ms server server' s fed drops = elim (Bool-cases (k == 0)) [
    | inl none_yet ↦
        let (empty, same) = none_used buffer k ms s none_yet in
        let kept : server.work ≡ server'.work = let f = rw empty at fed in cc in
        let left : buffer ≡ server'.read_buffer = sym same ∙ drops in
        rw none_yet (λ i. ok (record { read_buffer = left i; work = kept i }))
    | inr some_used ↦ rw (some_used, fed, drops)
  ]

  -- The messages of the buffer and the new bytes are fed, and the rest is kept.
  abbrev Receives : Bytes → Server M → Server M → Type 0
  Receives bytes server server' =
      (ms : List (Contents × Bytes)) × Stream metas (server.read_buffer ++ bytes) ms
        server'.read_buffer
      × (feed_messages metas routes initiative ms server.work ≡ ok server'.work)

  data_received-Receives :
      (bytes : Bytes) (server server' : Server M)
      → data_received metas routes initiative bytes server ≡ ok server'
      → Receives bytes server server'
  unfolding data_received
  data_received-Receives bytes server server' e =
      let buffer = server.read_buffer ++ bytes in
      let ((used, ms), fed, after) = both_returned _ (feed_data metas buffer) e in
      let s = Stream-feed_data metas buffer used ms fed in
      let (worked, left) = after_feeding-eq-ok buffer used ms server server' s after in
      (ms, rw left at s, worked)

  Receives-data_received :
      (bytes : Bytes) (server server' : Server M)
      → Receives bytes server server'
      → data_received metas routes initiative bytes server ≡ ok server'
  unfolding data_received
  Receives-data_received bytes server server' (ms, s, fed) =
      let (k, e, drops, fits) = feed_data-Stream metas s in
      rw e (
        after_feeding-ok (server.read_buffer ++ bytes) k ms server server' (rw (← drops) at s) fed
          drops)

  data_received-append :
      (bytes more : Bytes) (server server' : Server M)
      → data_received metas routes initiative (bytes ++ more) server ≡ ok server'
      → (mid : Server M) × (data_received metas routes initiative bytes server ≡ ok mid)
        × (data_received metas routes initiative more mid ≡ ok server')
  data_received-append bytes more server server' e =
      let (ms, s, fed) = data_received-Receives (bytes ++ more) server server' e in
      let (first, rest, second, s1, s2, whole) =
        Stream-append metas (server.read_buffer ++ bytes) more s
          (sym (append_assoc server.read_buffer bytes more)) in
      let (work, fed1, fed2) =
        feed_messages-append first second server.work server'.work (rw whole at fed) in
      let mid : Server M = record { read_buffer = rest; work = work } in
      (
        mid,
        Receives-data_received bytes server mid (first, s1, fed1),
        Receives-data_received more mid server' (second, s2, fed2),
      )

  -- Data that the server takes without an exception, as one piece, it takes in any pieces, and comes to
  -- the same buffer, the same contexts and the same tasks in the same order.
  pub receive-concat :
      (bytes : Bytes) (chunks : List Bytes) (server server' : Server M)
      → data_received metas routes initiative (concat (bytes ∷ chunks)) server ≡ ok server'
      → receive metas routes initiative (bytes ∷ chunks) server ≡ ok server'
  unfolding receive
  receive-concat bytes [] server server' e = rw (rw (append-nil bytes) at e)
  receive-concat bytes (next_bytes ∷ chunks) server server' e =
      let (mid, first, rest) =
        data_received-append bytes (concat (next_bytes ∷ chunks)) server server' e in
      rw first (receive-concat next_bytes chunks mid server' rest)
