-- ===== src/Rpc/Connection/Agreement.antt =====
-- When a connection and a table agree, and what a call does to them.
use pymaid.Prelude.{
  ℕ, ◌+◌, ◌≡◌, ◌∙◌, ap, sym, refl, Bool, not, true, false, List, Text, Bytes, ◌==◌, if◌then◌else◌,
  Option, some, none, Bool-cases, if_cases, inl, inr, Result, ok, throw, unfinished, arith,
}
use pymaid.Api.{same_type, void_type}
use pymaid.Rpc.Env.{Env, Method}
use pymaid.Rpc.Connection.{
  Conn, Closure, Step, Request, waiting, forget, await, call, request, if_packed,
}
use pymaid.Rpc.Connection.Pending.{IsSound}
use pymaid.Rpc.Connection.Answers.{waiting_above, waiting-forget, waiting-await}
use pymaid.Rpc.Connection.Runs.{is_ok}
use pymaid.Rpc.Connection.Spec.{
  Act, calling, Table, skipped, asked, released, Does, no_callback, refuses, asks, skips, notifies,
  fails, told_of,
}

abbrev pub callback : {M : Type 0} → Option (Closure M) → Option ℕ
callback none = none
callback (some closure) = some closure.cb

-- The transmissions are those of the table.
abbrev pub Shows : {M : Type 0} → List (ℕ × Closure M) → Table → Type 0
Shows transmissions t = (k : ℕ) → callback (waiting k transmissions) ≡ t.waits k

abbrev pub Agrees : {M : Type 0} → Conn M → Table → Type 0
Agrees conn t =
    (conn.transmission_id ≡ t.next) × Shows conn.transmissions t × (conn.is_closed ≡ t.shut)

module _ (env : Env) where
  open env use {jspb}

  -- A step tells callbacks as the act does from the table `t`, and ends in what the table then is.
  abbrev pub Refines : Act → Table → Step jspb.Message → Type 0
  Refines act t s =
      (t' : Table) × Does act (is_ok s.result) t (told_of s.events) t' × Agrees s.conn t'

  callback-if :
      (b : Bool) (x y : Option (Closure jspb.Message))
      → callback (if b then x else y) ≡ (if b then callback x else callback y)
  callback-if true x y = refl
  callback-if false x y = refl

  awaited :
      (w : Option (Closure jspb.Message)) (closure : Closure jspb.Message) (n k : ℕ) (x : Option ℕ)
      → callback w ≡ x
      → ((n == k) ≡ true → w ≡ none)
      → callback (elim w [ some b ↦ some b | none ↦ if n == k then some closure else none ])
        ≡ (if n == k then some closure.cb else x)
  awaited none closure n k x h free =
      callback-if (n == k) (some closure) none ∙ ap (λ y. if n == k then some closure.cb else y) h
  awaited (some b) closure n k x h free = elim (Bool-cases (n == k)) [
    | inl same ↦ let clash : some b ≡ none = free same in cc
    | inr other ↦ rw other h
  ]

  Shows-await :
      (conn : Conn jspb.Message) (t : Table) (closure : Closure jspb.Message)
      → IsSound conn
      → Agrees conn t
      → Shows (await conn.transmission_id closure conn.transmissions) (asked closure.cb t)
  Shows-await conn t closure sound (next, h, _) k =
      ap callback (waiting-await conn.transmission_id k closure conn.transmissions)
      ∙ (awaited (waiting k conn.transmissions) closure conn.transmission_id k (t.waits k) (h k)
            (λ same. free k same)
          ∙ ap (λ n. if n == k then some closure.cb else t.waits k) next)
    where
      free : (k : ℕ) → (conn.transmission_id == k) ≡ true → waiting k conn.transmissions ≡ none
      free k same = waiting_above 0 conn.transmission_id k conn.transmissions sound (ground arith)

  pub Shows-forget :
      (conn : Conn jspb.Message) (t : Table) (tid : ℕ)
      → IsSound conn
      → Shows conn.transmissions t
      → Shows (forget tid conn.transmissions) (released tid t)
  Shows-forget conn t tid sound h k =
      ap callback (waiting-forget 0 conn.transmission_id tid k conn.transmissions sound)
      ∙ (callback-if (k == tid) none (waiting k conn.transmissions)
          ∙ ap (λ x. if k == tid then none else x) (h k))

  numbered-Refines :
      (method : Method jspb.Message) (cb : ℕ) (conn : Conn jspb.Message) (r : Result Bytes)
      (b : Bool) (t : Table)
      → conn.ready ≡ b
      → t.shut ≡ false
      → IsSound conn
      → Agrees conn t
      → Refines (calling true (some cb)) t (
          if_packed env method cb conn.transmission_id
            (record conn { transmission_id = conn.transmission_id + 1 })
            true
            r)
  numbered-Refines method cb conn (ok packet) true t e live sound h = rw e (
    asked cb t,
    asks cb live,
    (
      ap (λ n. n + 1) h.0,
      Shows-await conn t (record { output_type = method.output_type; cb = cb }) sound h,
      h.2,
    ),
  )
  numbered-Refines method cb conn (ok packet) false t e live sound h =
      rw e (skipped t, skips cb live, (ap (λ n. n + 1) h.0, h.1, h.2))
  numbered-Refines method cb conn (throw x) b t e live sound h =
      (skipped t, skips cb live, (ap (λ n. n + 1) h.0, h.1, h.2))
  numbered-Refines method cb conn unfinished b t e live sound h =
      (skipped t, skips cb live, (ap (λ n. n + 1) h.0, h.1, h.2))

  notice-Refines :
      (method : Method jspb.Message) (cb tid : ℕ) (conn : Conn jspb.Message) (r : Result Bytes)
      (b : Bool) (t : Table)
      → conn.ready ≡ b
      → t.shut ≡ false
      → Agrees conn t
      → Refines (calling false (some cb)) t (if_packed env method cb tid conn false r)
  notice-Refines method cb tid conn (ok packet) true t e live h = rw e (t, notifies cb live, h)
  notice-Refines method cb tid conn (ok packet) false t e live h = rw e (t, fails cb live, h)
  notice-Refines method cb tid conn (throw x) b t e live h = (t, fails cb live, h)
  notice-Refines method cb tid conn unfinished b t e live h = (t, fails cb live, h)

  -- A method whose response is no Void needs a response.
  abbrev pub needs_response : Method jspb.Message → Bool
  needs_response method = not (same_type method.output_type (void_type jspb))

  pub call-Refines :
      (service name : Text) (method : Method jspb.Message) (req : Request jspb.Message)
      (cb : Option ℕ) (conn : Conn jspb.Message) (t : Table)
      → IsSound conn
      → Agrees conn t
      → Refines (calling (needs_response method) cb) t (call env service name method req cb conn)
  unfolding call request
  call-Refines service name method req none conn t sound h = (t, no_callback, h)
  call-Refines service name method req (some cb) conn t sound h =
      if_cases (Refines (calling (needs_response method) (some cb)) t) conn.is_closed _ _
        (λ shut. (t, refuses cb (sym h.2 ∙ shut), h))
        λ live. by_kind (same_type method.output_type (void_type jspb)) _ _ (sym h.2 ∙ live)
    where
      by_kind :
          (void : Bool) (r r' : Result Bytes)
          → t.shut ≡ false
          → Refines (calling (not void) (some cb)) t (
              if void
              then if_packed env method cb conn.transmission_id conn false r
              else if_packed env method cb conn.transmission_id
                  (record conn { transmission_id = conn.transmission_id + 1 })
                  true
                  r')
      by_kind true r r' live =
          notice-Refines method cb conn.transmission_id conn r conn.ready t refl live h
      by_kind false r r' live = numbered-Refines method cb conn r' conn.ready t refl live sound h
