-- ===== src/Rtds/Server/Stream.antt =====
-- internal/rtds/client.go: StreamRuntime for one connection, with nothing of the server in between.
use shedpilot.Common.{
  String, ◌≡◌, refl, Bool, true, false, Option, none, some, List, [], ◌∷◌, ℕ, ℤ, any, ◌==◌,
  Bool-cases, inl, inr, if◌then◌else◌, arith,
}
use shedpilot.Common.Dict.{insert, lookup, lookup-insert, lookup-erase}
use shedpilot.Rtds.Server.{World, node_id, connect, disconnect}
use shedpilot.Rtds.Server.Races.{streams-connect}

-- What a receive on the stream gives: an acknowledgement, or an error.
pub data Received : Type 0 where
  acked ended : Received

-- A connection: the first request, none where it does not come, with the identity that it may have;
-- the time in decimal; and what is received afterwards.
pub record Session : Type 0 where
  pub first : Option (Option String)
  pub nanos : String
  pub conn : ℕ
  pub received : List Received

-- What becomes of the call: an error, the loop that waits for the next message, or its return.
pub data Outcome : Type 0 where
  failed waiting returned : Outcome

abbrev pub is_ended : Received → Bool
is_ended acked = false
is_ended ended = true

-- The loop of receives: whether it was left.
unfoldable pub keep_alive : List Received → Bool
keep_alive [] = false
keep_alive (acked ∷ rest) = keep_alive rest
keep_alive (ended ∷ rest) = true

abbrev serve : (ℤ → String) → Session → World → Option (Option String) → World × Outcome
serve decimal s w none = (w, failed)
serve decimal s w (some id) =
    let w' = connect decimal (node_id id s.nanos) s.conn w in
    if keep_alive s.received then (disconnect (node_id id s.nanos) w', returned) else (w', waiting)

unfoldable pub stream_runtime : (ℤ → String) → Session → World → World × Outcome
unfolding connect disconnect keep_alive
stream_runtime decimal s w = serve decimal s w s.first

keep_alive_iff : (received : List Received) → keep_alive received ≡ any is_ended received
unfolding keep_alive
keep_alive_iff [] = refl
keep_alive_iff (acked ∷ rest) = keep_alive_iff rest
keep_alive_iff (ended ∷ rest) = refl

-- After its first request a stream returns exactly if a receive fails: its node is then not
-- registered, and is registered with the connection until then. The other nodes stay as they are.
pub lookup-stream_runtime :
    (decimal : ℤ → String) (s : Session) (w : World) (id : Option String) (other : String)
    → s.first ≡ some id
    → ((stream_runtime decimal s w).1 ≡ (if any is_ended s.received then returned else waiting))
      × (lookup other (stream_runtime decimal s w).0.server.streams ≡ (
          if node_id id s.nanos == other
          then if any is_ended s.received then none else some s.conn
          else lookup other w.server.streams))
unfolding stream_runtime disconnect
lookup-stream_runtime decimal s w id other first =
    let node = node_id id s.nanos in
    let over = keep_alive_iff s.received in
    let streams = streams-connect decimal node s.conn w in
    let put = lookup-insert node other s.conn w.server.streams in
    let gone = lookup-erase node other (insert node s.conn w.server.streams) in
    elim (Bool-cases (any is_ended s.received)) [
      | inl e ↦ rw (first, over, e) (refl, rw (streams, gone, put) (ground arith))
      | inr e ↦ rw (first, over, e) (refl, rw (streams, put) refl)
    ]
