-- ===== src/Tests/Channels.antt =====
-- Runs of a channel, and listeners.
use pymaid.Prelude.{◌≡◌, refl, [], ◌∷◌, List, codes, throw, type_error, arith, some, eq_text}
use pymaid.Js.{obj, end, null}
use pymaid.Jspb.Reference.{reference}
use pymaid.Api.{plain}
use pymaid.Rpc.Listener.{Impl, find, register, reply, message, split_service_method}
use pymaid.Rpc.Listener.Replies.{reply_throws, find-register, split-join}
use pymaid.Rpc.Connection.{fields}
use pymaid.Rpc.Channel.{new_channel}
use pymaid.Rpc.Channel.Actions.{connects, opens, calls, closes, receives, run, Action}
use pymaid.Rpc.Channel.Sound.{run-AllSound}
use pymaid.Rpc.Channel.Sound.Worlds.{AllSound}
use pymaid.Tests.Data.{env, name, cells, method}

abbrev actions : List (Action reference.Message)
actions =
    connects (codes "ws") (codes "a") (codes "1")
    ∷ opens 0
    ∷ calls (codes "Echo") (codes "echo") method (fields (obj end)) (some 40) (some 0)
    ∷ receives 0 (1 ∷ [])
    ∷ closes 0 (codes "lost")
    ∷ []

run-AllSound_example : AllSound (run env actions new_channel)
run-AllSound_example = run-AllSound env actions

reply_throws_example :
    reply env method name (plain (obj end)) null (message cells) ≡ throw type_error
reply_throws_example = reply_throws env method name (obj end) null (message cells) refl

abbrev echo : Impl reference.Message
echo = record { name = codes "Echo"; methods = (codes "echo", method) ∷ [] }

find-register_example :
    find (codes ".Echo") (register echo (record { implementations = [] })).implementations
    ≡ some echo
unfolding eq_text
find-register_example = find-register echo (record { implementations = [] }) (codes ".Echo")

split-join_example : split_service_method (codes "a.Echo.echo") ≡ (codes "a.Echo", codes "echo")
split-join_example = split-join (codes "a.Echo") (codes "echo") (ground arith)
