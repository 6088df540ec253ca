-- ===== src/Rpc/Channel.antt =====
-- `Channel` and `StubManager` of plugin/js/pymaid.js: one channel, its stubs, and the connections that
-- it has made, by their numbers. A connection object is shared by all that hold its number.
pub mod Stubs
pub mod Actions
pub mod Sound
pub mod Closing
use pymaid.Prelude.{
  ℕ, ◌+◌, Bool, true, false, not, ◌&&◌, ◌||◌, List, [], ◌∷◌, ◌++◌, Text, Bytes, codes, eq_text,
  ◌==◌, if◌then◌else◌, Option, none, some, Result, ok, throw, unfinished, type_error, error,
}
use pymaid.Names.Defs.{lower}
use pymaid.Rpc.Env.{Env, Method, Event, value, nothing, scheduled, opened, closed, failed}
use pymaid.Rpc.Listener.{Listener, Impl, listen, register, find, insert}
use pymaid.Rpc.Connection.{Conn, Step, Request, new_connection, call, closed_error}
use pymaid.Rpc.Connection.Inbound.{on_message}
use pymaid.Rpc.Connection.Cleanup.{close_connection, cleanup}

-- An entry of `pbrpc`: a service's name and its methods.
pub record Service (Message : Type 0) : Type 0 where
  pub name : Text
  pub methods : List (Text × Method Message)

-- `conn` is `channel.conn`, and `stubs_conn` is `channel.stubs.conn`.
pub record World (Message : Type 0) : Type 0 where
  pub conns : ℕ → Conn Message
  pub next_connid : ℕ
  pub conn : Option ℕ
  pub is_closed : Bool
  pub stubs_conn : Option ℕ
  pub stubs : List (Text × Service Message)
  pub listener : Listener Message

pub record WorldStep (Message : Type 0) : Type 0 where
  pub result : Result (Unit {0})
  pub world : World Message
  pub events : List Event

abbrev pub set_conn : {M : Type 0} → ℕ → Conn M → (ℕ → Conn M) → ℕ → Conn M
set_conn k c conns i = if k == i then c else conns i

-- `new Channel()`
unfoldable pub new_channel : {M : Type 0} → World M
new_channel = record {
  conns = λ i. new_connection i [];
  next_connid = 0;
  conn = none;
  is_closed = true;
  stubs_conn = none;
  stubs = [];
  listener = record { implementations = [] };
}

-- `_combineAddress`, for a port in its decimal form.
unfoldable pub combine_address : Text → Text → Text → Text
unfolding eq_text
combine_address scheme host port =
    let address = host ++ (codes ":" ++ port) in
    if eq_text scheme (codes "ws") || eq_text scheme (codes "wss")
    then scheme ++ (codes "://" ++ address)
    else address

module _ {M : Type 0} where
  -- `conn && conn.address === address && !conn.is_closed`
  unfoldable pub is_already_connected : Text → World M → Bool
  unfolding eq_text
  is_already_connected address w = elim w.conn [
    | none ↦ false
    | some c ↦ eq_text (w.conns c).address address && not (w.conns c).is_closed
  ]

  -- `connect`: the number of the connection that it returns, and the world.
  unfoldable pub connect : Text → Text → Text → World M → Option ℕ × World M
  connect scheme host port w =
      let address = combine_address scheme host port in
      if is_already_connected address w then (w.conn, w) else (
        some w.next_connid,
        record w {
          conns = set_conn w.next_connid (new_connection w.next_connid address) w.conns;
          next_connid = w.next_connid + 1;
        },
      )

  -- `stubs.bindConnection(conn)`: a bound connection that is not closed stays.
  abbrev pub is_live : Option ℕ → World M → Bool
  is_live none w = false
  is_live (some c) w = not (w.conns c).is_closed

  unfoldable pub bind_connection : Option ℕ → World M → World M
  bind_connection c w = if is_live w.stubs_conn w then w else record w { stubs_conn = c }

  unfoldable pub connection_made : ℕ → World M → World M
  unfolding bind_connection
  connection_made c w = bind_connection (some c) (record w { conn = some c; is_closed = false })

  -- The socket's `open` event on connection `c`.
  unfoldable pub on_open : ℕ → World M → WorldStep M
  on_open c w =
      let live = record (w.conns c) { is_closed = false; ready = true } in
      let w' = record w { conns = set_conn c live w.conns } in
      if (w.conns c).attached
      then record { result = ok tt; world = connection_made c w'; events = opened c ∷ [] }
      else record { result = throw type_error; world = w'; events = [] }

  -- The socket's `error` event on connection `c`: its callback is null once the socket has closed.
  unfoldable pub on_error : ℕ → World M → WorldStep M
  on_error c w =
      if (w.conns c).attached
      then record { result = ok tt; world = w; events = failed c ∷ [] }
      else record { result = throw type_error; world = w; events = [] }

  -- `init_listener`: a new listener with the implementations `pbimpl`.
  unfoldable pub register_all : List (Impl M) → Listener M → Listener M
  register_all [] l = l
  register_all (impl ∷ impls) l = register_all impls (register impl l)

  unfoldable pub init_listener : List (Impl M) → World M → World M
  init_listener pbimpl w = record w {
    listener = register_all pbimpl (record { implementations = [] });
  }

module _ (env : Env) where
  open env use {jspb}

  -- A step of connection `c`, in the world.
  abbrev pub at : ℕ → World jspb.Message → Step jspb.Message → WorldStep jspb.Message
  at c w s = record {
    result = s.result;
    world = record w { conns = set_conn c s.conn w.conns };
    events = s.events;
  }

  -- One step, and the next if it did not throw.
  abbrev pub continue :
      Result (Unit {0}) → WorldStep jspb.Message → WorldStep jspb.Message → WorldStep jspb.Message
  continue (ok u) first second = record second { events = first.events ++ second.events }
  continue (throw e) first second = first
  continue unfinished first second = first

  infixl 20 ◌then_do◌
  abbrev pub ◌then_do◌ :
      WorldStep jspb.Message
      → (World jspb.Message → WorldStep jspb.Message)
      → WorldStep jspb.Message
  first then_do next = continue first.result first (next first.world)

  abbrev pub silently : World jspb.Message → WorldStep jspb.Message
  silently w = record { result = ok tt; world = w; events = [] }

  -- `close`: the flag is set first; a closed channel stays as it is.
  abbrev pub close_held : Text → Option ℕ → World jspb.Message → WorldStep jspb.Message
  close_held reason none w = record { result = throw type_error; world = w; events = [] }
  close_held reason (some c) w = at c w (close_connection env reason (w.conns c)) then_do λ w'.
      silently (record w' { conn = none })

  unfoldable pub close : Text → World jspb.Message → WorldStep jspb.Message
  close reason w =
      if w.is_closed then silently w else close_held reason w.conn (record w { is_closed = true })

  unfoldable pub connection_closed : World jspb.Message → WorldStep jspb.Message
  unfolding close
  connection_closed w =
      close (codes "connection closed") w then_do λ w'. silently (record w' { stubs_conn = none })

  abbrev pub tell : Event → World jspb.Message → WorldStep jspb.Message
  tell e w = record { result = ok tt; world = w; events = e ∷ [] }

  -- What `onclose` does once the flag is set; `evt` is what the event prints as.
  abbrev pub detach : ℕ → World jspb.Message → World jspb.Message
  detach c u = record u { conns = set_conn c (record (u.conns c) { attached = false }) u.conns }

  unfoldable pub end_connection : ℕ → Text → World jspb.Message → WorldStep jspb.Message
  end_connection c evt w =
      connection_closed w
      then_do tell (closed c)
      then_do (λ u. at c u (cleanup env evt (u.conns c)))
      then_do (λ u. silently (detach c u))

  abbrev pub shut : ℕ → World jspb.Message → World jspb.Message
  shut c w = record w { conns = set_conn c (record (w.conns c) { is_closed = true }) w.conns }

  -- The socket's `close` event on connection `c`: its callbacks are null after the first.
  unfoldable pub on_close : ℕ → Text → World jspb.Message → WorldStep jspb.Message
  on_close c evt w =
      if (w.conns c).attached
      then end_connection c evt (shut c w)
      else record { result = throw type_error; world = shut c w; events = [] }

  -- The socket's `message` event on connection `c`.
  unfoldable pub receive : ℕ → Bytes → World jspb.Message → WorldStep jspb.Message
  receive c bytes w = at c w (on_message env (listen env w.listener) bytes (w.conns c))
