-- ===== src/Rpc/Connection/Spec.antt =====
-- What a connection promises, without packets and sockets: a table of callbacks under numbers, and
-- what each act does to it.
use pymaid.Prelude.{
  ap, refl, ◌++◌, ℕ, ◌+◌, ◌<◌, ◌≡◌, Bool, true, false, List, [], ◌∷◌, Option, none, some, ◌==◌,
  if◌then◌else◌,
}
use pymaid.Rpc.Env.{Event, sent, ws_close, called, scheduled, invoked, opened, closed, failed}

-- The next number, the callback that waits under a number, and whether the connection has ended.
pub record Table : Type 0 where
  pub next : ℕ
  pub waits : ℕ → Option ℕ
  pub shut : Bool

-- A callback is called at once, or by a timer.
pub data Told : Type 0 where
  now : ℕ → Told
  later : ℕ → Told

-- What is done to a connection: its socket opens, a call is made that needs a response or not, with a
-- callback or without one, a packet is heard, it is closed, or (true) its socket has closed.
pub data Act : Type 0 where
  opening : Act
  calling : Bool → Option ℕ → Act
  hearing : Act
  closing : Bool → Act

abbrev pub empty_table : Table
empty_table = record { next = 0; waits = λ k. none; shut = false }

abbrev pub skipped : Table → Table
skipped t = record t { next = t.next + 1 }

abbrev pub asked : ℕ → Table → Table
asked cb t = record t { next = t.next + 1; waits = λ k. if t.next == k then some cb else t.waits k }

abbrev pub released : ℕ → Table → Table
released tid t = record t { waits = λ k. if k == tid then none else t.waits k }

-- Callbacks are released and told, that with the smallest number first.
pub data Releases : Table → List Told → Table → Type 0 where
  done : {t : Table} → Releases t [] t
  release :
      {t t' : Table} {told : List Told} (tid cb : ℕ)
      → t.waits tid ≡ some cb
      → ((k : ℕ) → k < tid → t.waits k ≡ none)
      → Releases (released tid t) told t'
      → Releases t (now cb ∷ told) t'

abbrev pub NoneWaits : Table → Type 0
NoneWaits t = (k : ℕ) → t.waits k ≡ none

abbrev pub shut_if : Bool → Table → Table
shut_if true t = record t { shut = true }
shut_if false t = t

-- What an act does to the table, and what it tells; the Boolean is false if it threw.
pub data Does : Act → Bool → Table → List Told → Table → Type 0 where
  opens : {t : Table} (b : Bool) → Does opening b t [] (record t { shut = false })
  no_callback : {t : Table} {needs : Bool} → Does (calling needs none) false t [] t
  refuses :
      {t : Table} {needs : Bool} (cb : ℕ)
      → t.shut ≡ true
      → Does (calling needs (some cb)) true t (later cb ∷ []) t
  -- A call on an open connection waits under the next number, which is used up if the call throws.
  asks :
      {t : Table} (cb : ℕ) → t.shut ≡ false → Does (calling true (some cb)) true t [] (asked cb t)
  skips :
      {t : Table} (cb : ℕ) → t.shut ≡ false → Does (calling true (some cb)) false t [] (skipped t)
  -- One that needs no response is told by a timer.
  notifies :
      {t : Table} (cb : ℕ)
      → t.shut ≡ false
      → Does (calling false (some cb)) true t (later cb ∷ []) t
  fails : {t : Table} (cb : ℕ) → t.shut ≡ false → Does (calling false (some cb)) false t [] t
  ignores : {t : Table} (b : Bool) → Does hearing b t [] t
  -- A response tells the callback of its number, unless it cannot be read; it is released in any case.
  answers :
      {t : Table} (tid cb : ℕ)
      → t.waits tid ≡ some cb
      → Does hearing true t (now cb ∷ []) (released tid t)
  loses :
      {t : Table} (tid cb : ℕ) → t.waits tid ≡ some cb → Does hearing false t [] (released tid t)
  -- Closing tells all that wait, unless it throws.
  closes :
      {t t' : Table} {told : List Told} (final b : Bool)
      → Releases (shut_if final t) told t'
      → (b ≡ true → NoneWaits t')
      → Does (closing final) b t told t'

-- One act after the other.
pub data Follows : List (Act × Bool) → Table → List Told → Table → Type 0 where
  rests : {t : Table} → Follows [] t [] t
  acts :
      {act : Act} {b : Bool} {todo : List (Act × Bool)} {t t' t'' : Table} {told told' : List Told}
      → Does act b t told t'
      → Follows todo t' told' t''
      → Follows ((act, b) ∷ todo) t (told ++ told') t''

-- The callbacks that events tell.
abbrev pub told_by : Event → List Told → List Told
told_by (called cb err resp) told = now cb ∷ told
told_by (scheduled cb err resp) told = later cb ∷ told
told_by (sent c bytes) told = told
told_by (ws_close c) told = told
told_by (invoked service method context req) told = told
told_by (opened c) told = told
told_by (closed c) told = told
told_by (failed c) told = told

abbrev pub told_of : List Event → List Told
told_of [] = []
told_of (e ∷ events) = told_by e (told_of events)

pub told_of-append : (xs ys : List Event) → told_of (xs ++ ys) ≡ told_of xs ++ told_of ys
told_of-append [] ys = refl
told_of-append (called cb err resp ∷ xs) ys = ap (◌∷◌ (now cb)) (told_of-append xs ys)
told_of-append (scheduled cb err resp ∷ xs) ys = ap (◌∷◌ (later cb)) (told_of-append xs ys)
told_of-append (sent c bytes ∷ xs) ys = told_of-append xs ys
told_of-append (ws_close c ∷ xs) ys = told_of-append xs ys
told_of-append (invoked service method context req ∷ xs) ys = told_of-append xs ys
told_of-append (opened c ∷ xs) ys = told_of-append xs ys
told_of-append (closed c ∷ xs) ys = told_of-append xs ys
told_of-append (failed c ∷ xs) ys = told_of-append xs ys
