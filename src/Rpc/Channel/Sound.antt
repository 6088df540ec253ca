-- ===== src/Rpc/Channel/Sound.antt =====
-- What holds of the connections whatever happens to the channel.
pub mod Worlds
use pymaid.Prelude.{
  ℕ, ◌+◌, true, false, List, [], ◌∷◌, Text, Bytes, codes, ◌==◌, if_cases, Option, none, some,
  Result, ok, throw, unfinished, type_error, arith,
}
use pymaid.Names.Defs.{lower}
use pymaid.Rpc.Env.{Env, Method, closed, opened, failed}
use pymaid.Rpc.Listener.{listen, insert}
use pymaid.Rpc.Connection.{Conn, Step, Request, new_connection, call}
use pymaid.Rpc.Connection.Inbound.{on_message}
use pymaid.Rpc.Connection.Cleanup.{cleanup, close_connection}
use pymaid.Rpc.Connection.Pending.{IsSound, call-IsSound, on_message-IsSound, cleanup-IsSound}
use pymaid.Rpc.Channel.{
  init_listener, ◌then_do◌, silently, is_live, combine_address, tell, World, WorldStep, Service,
  set_conn, connect, is_already_connected, bind_connection, connection_made, on_open, on_error,
  on_close, end_connection, shut, detach, close, close_held, connection_closed, receive, at,
  continue, new_channel,
}
use pymaid.Rpc.Channel.Stubs.{stub_call, call_on, or_else, init_stubs, init_stubs_from}
use pymaid.Rpc.Channel.Actions.{
  Action, connects, opens, fails, closes, receives, calls, closes_channel, sets_stubs,
  sets_listener, step, run,
}
use pymaid.Rpc.Channel.Sound.Worlds.{
  AllSound, set_conn-IsSound, new_connection-IsSound, connect_sound, bind_connection_sound,
  on_error_sound, on_open_sound, init_stubs_from_sound,
}

module _ (env : Env) where
  open env use {jspb}

  abbrev Keeps : WorldStep jspb.Message → Type 0
  Keeps s = AllSound s.world

  at_sound :
      (c : ℕ) (w : World jspb.Message) (s : Step jspb.Message)
      → IsSound s.conn
      → AllSound w
      → Keeps (at env c w s)
  at_sound c w s h hs = record { sound = set_conn-IsSound c s.conn w.conns h hs.sound }

  then_do_sound :
      (first : WorldStep jspb.Message) (next : World jspb.Message → WorldStep jspb.Message)
      → Keeps first
      → ((w : World jspb.Message) → AllSound w → Keeps (next w))
      → Keeps (◌then_do◌ env first next)
  then_do_sound first next h k = go first.result
    where
      go : (r : Result (Unit {0})) → Keeps (continue env r first (next first.world))
      go (ok u) = record { sound = (k first.world h).sound }
      go (throw e) = h
      go unfinished = h

  close_connection-IsSound :
      (reason : Text) (conn : Conn jspb.Message)
      → IsSound conn
      → IsSound (close_connection env reason conn).conn
  unfolding close_connection
  close_connection-IsSound reason conn h = cleanup-IsSound env reason conn h

  close_held_sound :
      (reason : Text) (c : Option ℕ) (w : World jspb.Message)
      → AllSound w
      → Keeps (close_held env reason c w)
  close_held_sound reason none w h = h
  close_held_sound reason (some c) w h =
      then_do_sound (at env c w (close_connection env reason (w.conns c)))
        (λ w'. silently env (record w' { conn = none }))
        (at_sound c w (close_connection env reason (w.conns c))
          (close_connection-IsSound reason (w.conns c) (h.sound c)) h)
        (λ w' h'. record { sound = h'.sound })

  close_sound : (reason : Text) (w : World jspb.Message) → AllSound w → Keeps (close env reason w)
  unfolding close
  close_sound reason w h =
      if_cases Keeps w.is_closed (silently env w)
        (close_held env reason w.conn (record w { is_closed = true })) (λ e. h)
        (λ e.
          close_held_sound reason w.conn (record w { is_closed = true })
            (record { sound = h.sound }))

  connection_closed_sound : (w : World jspb.Message) → AllSound w → Keeps (connection_closed env w)
  unfolding connection_closed
  connection_closed_sound w h =
      then_do_sound (close env (codes "connection closed") w)
        (λ w'. silently env (record w' { stubs_conn = none }))
        (close_sound (codes "connection closed") w h) (λ w' h'. record { sound = h'.sound })

  end_connection_sound :
      (c : ℕ) (evt : Text) (w : World jspb.Message)
      → AllSound w
      → Keeps (end_connection env c evt w)
  unfolding end_connection
  end_connection_sound c evt w h =
      let s1 = connection_closed env w in
      let s2 = ◌then_do◌ env s1 (tell env (closed c)) in
      let s3 = ◌then_do◌ env s2 (λ u. at env c u (cleanup env evt (u.conns c))) in
      let h2 : Keeps s2 =
        then_do_sound s1 (tell env (closed c)) (connection_closed_sound w h)
          (λ u k. record { sound = k.sound }) in
      let h3 : Keeps s3 =
        then_do_sound s2 (λ u. at env c u (cleanup env evt (u.conns c))) h2
          λ u k.
            at_sound c u (cleanup env evt (u.conns c))
              (cleanup-IsSound env evt (u.conns c) (k.sound c)) k in
      then_do_sound s3 (λ u. silently env (detach env c u)) h3
        λ u k. record {
          sound =
              set_conn-IsSound c (record (u.conns c) { attached = false }) u.conns (k.sound c)
                k.sound;
        }

  on_close_sound :
      (c : ℕ) (evt : Text) (w : World jspb.Message) → AllSound w → Keeps (on_close env c evt w)
  unfolding on_close
  on_close_sound c evt w h =
      let h' : AllSound (shut env c w) = record {
        sound =
            set_conn-IsSound c (record (w.conns c) { is_closed = true }) w.conns (h.sound c)
              h.sound;
      } in
      if_cases Keeps (w.conns c).attached (end_connection env c evt (shut env c w))
        (record { result = throw type_error; world = shut env c w; events = [] })
        (λ e. end_connection_sound c evt (shut env c w) h') (λ e. h')

  receive_sound :
      (c : ℕ) (bytes : Bytes) (w : World jspb.Message) → AllSound w → Keeps (receive env c bytes w)
  unfolding receive
  receive_sound c bytes w h =
      at_sound c w (on_message env (listen env w.listener) bytes (w.conns c))
        (on_message-IsSound env (listen env w.listener) bytes (w.conns c) (h.sound c)) h

  call_on_sound :
      (service name : Text) (method : Method jspb.Message) (req : Request jspb.Message) (cb : ℕ)
      (c : Option ℕ) (w : World jspb.Message)
      → AllSound w
      → Keeps (call_on env service name method req cb c w)
  call_on_sound service name method req cb none w h = h
  call_on_sound service name method req cb (some c) w h =
      at_sound c w (call env service name method req (some cb) (w.conns c))
        (call-IsSound env service name method req (some cb) (w.conns c) (h.sound c)) h

  stub_call_sound :
      (service name : Text) (method : Method jspb.Message) (req : Request jspb.Message)
      (cb conn : Option ℕ) (w : World jspb.Message)
      → AllSound w
      → Keeps (stub_call env service name method req cb conn w)
  unfolding stub_call
  stub_call_sound service name method req none conn w h = h
  stub_call_sound service name method req (some cb) conn w h =
      call_on_sound service name method req cb (or_else env conn w.stubs_conn) w h

  step_sound :
      (a : Action jspb.Message) (w : World jspb.Message) → AllSound w → AllSound (step env a w)
  unfolding step init_stubs init_listener
  step_sound (connects scheme host port) w h = connect_sound scheme host port w h
  step_sound (opens c) w h = on_open_sound c w h
  step_sound (fails c) w h = on_error_sound c w h
  step_sound (closes c evt) w h = on_close_sound c evt w h
  step_sound (receives c bytes) w h = receive_sound c bytes w h
  step_sound (calls service name method req cb conn) w h =
      stub_call_sound service name method req cb conn w h
  step_sound (closes_channel reason) w h = close_sound reason w h
  step_sound (sets_stubs pbrpc) w h =
      init_stubs_from_sound pbrpc (record w { stubs = []; stubs_conn = none })
        (record { sound = h.sound })
  step_sound (sets_listener pbimpl) w h = record { sound = h.sound }

  run_sound :
      (todo : List (Action jspb.Message)) (w : World jspb.Message)
      → AllSound w
      → AllSound (run env todo w)
  unfolding run
  run_sound [] w h = h
  run_sound (a ∷ todo) w h = run_sound todo (step env a w) (step_sound a w h)

  -- Whatever happens to a new channel, in any order and whether or not the calls throw, each of its
  -- connections keeps its open requests under distinct numbers, all below the number that is next.
  pub run-AllSound : (actions : List (Action jspb.Message)) → AllSound (run env actions new_channel)
  unfolding new_channel
  run-AllSound actions =
      run_sound actions new_channel
        (record { sound = λ k. new_connection-IsSound jspb.Message k [] })
