-- ===== src/Rpc/Channel/Sound/Worlds.antt =====
-- The steps of a channel that send and receive nothing.
use pymaid.Prelude.{
  ℕ, ◌+◌, true, false, List, [], ◌∷◌, Text, ◌==◌, if_cases, Option, some, ok, throw, type_error,
  arith,
}
use pymaid.Names.Defs.{lower}
use pymaid.Rpc.Env.{opened, failed}
use pymaid.Rpc.Listener.{insert}
use pymaid.Rpc.Connection.{Conn, new_connection}
use pymaid.Rpc.Connection.Pending.{IsSound}
use pymaid.Rpc.Channel.{
  is_live, combine_address, World, WorldStep, Service, set_conn, connect, is_already_connected,
  bind_connection, connection_made, on_open, on_error,
}
use pymaid.Rpc.Channel.Stubs.{init_stubs_from}

-- Every connection keeps its open requests apart.
pub record AllSound {M : Type 0} (w : World M) : Type 0 where
  pub sound : (k : ℕ) → IsSound (w.conns k)

pub set_conn-IsSound :
    {M : Type 0} (c : ℕ) (conn : Conn M) (conns : ℕ → Conn M)
    → IsSound conn
    → ((k : ℕ) → IsSound (conns k))
    → (k : ℕ) → IsSound (set_conn c conn conns k)
set_conn-IsSound c conn conns h hs k = if_cases IsSound (c == k) conn (conns k) (λ e. h) (λ e. hs k)

pub new_connection-IsSound :
    (M : Type 0) (connid : ℕ) (address : Text) → IsSound (new_connection {M = M} connid address)
unfolding new_connection
new_connection-IsSound M connid address = omega arith

module _ {M : Type 0} where
  pub connect_sound :
      (scheme host port : Text) (w : World M) → AllSound w → AllSound (connect scheme host port w).1
  unfolding connect
  connect_sound scheme host port w h =
      let address = combine_address scheme host port in
      let made = record w {
        conns = set_conn w.next_connid (new_connection w.next_connid address) w.conns;
        next_connid = w.next_connid + 1;
      } in
      let sound : AllSound made = record {
        sound =
            set_conn-IsSound w.next_connid (new_connection w.next_connid address) w.conns
              (new_connection-IsSound M w.next_connid address) h.sound;
      } in
      if_cases {A = Option ℕ × World M} (λ r. AllSound r.1) (is_already_connected address w)
        (w.conn, w) (some w.next_connid, made) (λ e. h) (λ e. sound)

  pub bind_connection_sound :
      (c : Option ℕ) (w : World M) → AllSound w → AllSound (bind_connection c w)
  unfolding bind_connection
  bind_connection_sound c w h =
      if_cases AllSound (is_live w.stubs_conn w) w (record w { stubs_conn = c }) (λ e. h)
        (λ e. record { sound = h.sound })

  pub on_error_sound : (c : ℕ) (w : World M) → AllSound w → AllSound (on_error c w).world
  unfolding on_error
  on_error_sound c w h =
      if_cases (λ (s : WorldStep M). AllSound s.world) (w.conns c).attached
        (record { result = ok tt; world = w; events = failed c ∷ [] })
        (record { result = throw type_error; world = w; events = [] }) (λ there. h) (λ gone. h)

  pub on_open_sound : (c : ℕ) (w : World M) → AllSound w → AllSound (on_open c w).world
  unfolding on_open connection_made
  on_open_sound c w h =
      let live = record (w.conns c) { is_closed = false; ready = true } in
      let w' = record w { conns = set_conn c live w.conns } in
      let h' : (k : ℕ) → IsSound (w'.conns k) =
        set_conn-IsSound c live w.conns (h.sound c) h.sound in
      if_cases (λ (s : WorldStep M). AllSound s.world) (w.conns c).attached
        (record { result = ok tt; world = connection_made c w'; events = opened c ∷ [] })
        (record { result = throw type_error; world = w'; events = [] })
        (λ e.
          bind_connection_sound (some c) (record w' { conn = some c; is_closed = false })
            (record { sound = h' }))
        (λ e. record { sound = h' })

  pub init_stubs_from_sound :
      (pbrpc : List (Text × Service M)) (w : World M)
      → AllSound w
      → AllSound (init_stubs_from pbrpc w).world
  unfolding init_stubs_from
  init_stubs_from_sound [] w h = bind_connection_sound w.conn w h
  init_stubs_from_sound (([], service) ∷ pbrpc) w h = h
  init_stubs_from_sound ((c ∷ s, service) ∷ pbrpc) w h =
      init_stubs_from_sound pbrpc (record w { stubs = insert (lower c ∷ s) service w.stubs })
        (record { sound = h.sound })
