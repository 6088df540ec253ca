-- ===== src/Rpc/Channel/Actions.antt =====
-- The actions on a channel, one after the other.
use pymaid.Prelude.{ℕ, List, [], ◌∷◌, Text, Bytes, Option}
use pymaid.Rpc.Env.{Env, Method}
use pymaid.Rpc.Listener.{Impl}
use pymaid.Rpc.Connection.{Request}
use pymaid.Rpc.Channel.{
  Service, World, connect, on_open, on_error, on_close, receive, close, init_listener,
}
use pymaid.Rpc.Channel.Stubs.{init_stubs, stub_call}

-- What may happen: a call of the page, or an event of a socket.
pub data Action (Message : Type 0) : Type 0 where
  connects : Text → Text → Text → Action Message
  opens : ℕ → Action Message
  fails : ℕ → Action Message
  closes : ℕ → Text → Action Message
  receives : ℕ → Bytes → Action Message
  calls : Text → Text → Method Message → Request Message → Option ℕ → Option ℕ → Action Message
  closes_channel : Text → Action Message
  sets_stubs : List (Text × Service Message) → Action Message
  sets_listener : List (Impl Message) → Action Message

-- The world after an action: an exception ends the call, and what was written stays.
module _ (env : Env) where
  open env use {jspb}

  unfoldable pub step : Action jspb.Message → World jspb.Message → World jspb.Message
  step (connects scheme host port) w = (connect scheme host port w).1
  step (opens c) w = (on_open c w).world
  step (fails c) w = (on_error c w).world
  step (closes c evt) w = (on_close env c evt w).world
  step (receives c bytes) w = (receive env c bytes w).world
  step (calls service name method req cb conn) w =
      (stub_call env service name method req cb conn w).world
  step (closes_channel reason) w = (close env reason w).world
  step (sets_stubs pbrpc) w = (init_stubs pbrpc w).world
  step (sets_listener pbimpl) w = init_listener pbimpl w

  unfoldable pub run : List (Action jspb.Message) → World jspb.Message → World jspb.Message
  unfolding step
  run [] w = w
  run (a ∷ actions) w = run actions (step a w)
