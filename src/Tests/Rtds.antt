-- ===== src/Tests/Rtds.antt =====
-- The server's theorems at a state with two sidecars.
use shedpilot.Common.{nat_eq, false, String, ◌≡◌, refl, none, some, [], ◌∷◌, ℕ, ℤ, if◌then◌else◌}
use shedpilot.Common.Dict.{lookup, insert}
use shedpilot.Rtds.Server.{
  Values, Response, build_response, Link, open_link, broken, World, new_server, register, connect,
  push_layer, push_to_stream, disconnect,
}
use shedpilot.Rtds.Server.Delivery.{held}
use shedpilot.Rtds.Server.Outstanding.{
  Serving, Interleaving, started, moved, began, published, arrived, begin, publish, arrive,
}
use shedpilot.Rtds.Server.Outstanding.Settled.{held-interleaved}
use shedpilot.Rtds.Server.Races.{push-after_reconnect, stale-after_replay}
use shedpilot.Rtds.Server.{node_id}
use shedpilot.Rtds.Server.Stream.{
  Session, acked, ended, returned, stream_runtime, lookup-stream_runtime,
}
use shedpilot.Tests.Thousandths.{thousandths}

abbrev pub links : ℕ → Link
links conn = if nat_eq conn 3 then broken else open_link

abbrev print : ℤ → String
print n = "n"

abbrev pub at_start : World
at_start = record { server = new_server; link = links; inbox = λ conn. [] }

abbrev off : Values
off = ("enabled", "false") ∷ []

abbrev on : Values
on = ("enabled", "true") ∷ []

abbrev one_layer : World
one_layer = (push_layer print "filter" off at_start).0

abbrev one_sidecar : World
one_sidecar = connect print "pod" 1 one_layer

abbrev reconnected : World
reconnected = disconnect "pod" (connect print "pod" 2 (connect print "pod" 1 one_layer))

push-after_reconnect_example :
    (lookup "pod" reconnected.server.streams ≡ none)
    × (held (push_layer print "filter" on reconnected).0 2 "filter" ≡ held reconnected 2 "filter")
unfolding push_layer
push-after_reconnect_example =
    push-after_reconnect print "pod" 1 2 one_layer "filter" "filter" on refl

abbrev raced : World
raced = (push_layer print "filter" on (register "pod" 1 one_layer).0).0

abbrev replayed : World
replayed = push_to_stream print 1 (register "pod" 1 one_layer).1 raced

stale-after_replay_example :
    (lookup "filter" replayed.server.current ≡ some on)
    × (held raced 1 "filter" ≡ some on)
    × (held replayed 1 "filter" ≡ some off)
unfolding register push_layer insert lookup
stale-after_replay_example =
    stale-after_replay print "pod" 1 one_layer "filter" off on (refl, tt) refl refl

abbrev session : Session
session = record { first = some (some "pod"); nanos = "7"; conn = 1; received = acked ∷ ended ∷ [] }

lookup-stream_runtime_example :
    ((stream_runtime print session one_layer).1 ≡ returned)
    × (lookup "pod" (stream_runtime print session one_layer).0.server.streams ≡ none)
unfolding node_id
lookup-stream_runtime_example =
    lookup-stream_runtime print session one_layer (some "pod") "pod" refl

-- Two sidecars connect, a layer is pushed, and it arrives at the second one first.
abbrev both : Serving
both =
    begin "late" 2
      (begin "pod" 1 (record { world = at_start; sends = []; mixed = λ conn l. false }))

abbrev out : Serving
out = publish "filter" off both

abbrev response : Response
response = build_response print out.world.server "filter" off

abbrev second_has : Serving
second_has = arrive response 2 (record { conn = 1; layer = "filter"; values = off } ∷ []) out

abbrev both_have : Serving
both_have = arrive response 1 [] second_has

Interleaving-both_have : Interleaving both_have
unfolding begin publish arrive register insert build_response
Interleaving-both_have =
    let two =
      moved (moved (started links (λ conn. [])) (began "pod" 1 _ refl tt))
        (began "late" 2 _ refl tt) in
    let three = moved two (published "filter" off both) in
    let four = moved three (
      arrived (record { conn = 2; layer = "filter"; values = off })
        (record { conn = 1; layer = "filter"; values = off } ∷ []) [] response out refl refl refl
        refl) in
    moved four (
      arrived (record { conn = 1; layer = "filter"; values = off }) [] [] response second_has refl
        refl refl refl)

held-interleaved_example : held both_have.world 1 "filter" ≡ some off
unfolding begin publish arrive register insert lookup
held-interleaved_example =
    held-interleaved 1 "filter" off Interleaving-both_have refl refl refl refl refl
