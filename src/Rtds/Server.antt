-- ===== src/Rtds/Server.antt =====
-- internal/rtds/client.go: the server's state and operations, with the sidecars at the other ends of
-- its streams. A connection is a number; what a sidecar holds is what it was sent last for each layer.
pub mod Keys
pub mod Delivery
pub mod Sync
pub mod Races
pub mod Outstanding
pub mod Stream
use shedpilot.Common.{
  String, Bool, true, false, Option, none, some, List, [], ◌∷◌, ℕ, ℤ, pos, inc, length, ◌==◌, ◌<>◌,
  nat_eq, if◌then◌else◌,
}
use shedpilot.Common.Dict.{Dict, lookup, insert, erase}

abbrev pub Values : Type 0
Values = Dict String

pub record Server : Type 0 where
  pub streams : Dict ℕ
  pub current : Dict Values
  pub version : ℤ

abbrev pub new_server : Server
new_server = record { streams = []; current = []; version = pos 0 }

-- envoy's DiscoveryResponse, with the one Runtime resource that it carries
pub record Response : Type 0 where
  pub version_info : String
  pub type_url : String
  pub layer : String
  pub values : Values
  pub nonce : String

abbrev pub rtds_type_url : String
rtds_type_url = "type.googleapis.com/envoy.service.runtime.v3.Runtime"

-- `decimal` prints an integer.
unfoldable pub build_response : (ℤ → String) → Server → String → Values → Response
build_response decimal s layer values = record {
  version_info = decimal s.version;
  type_url = rtds_type_url;
  layer = layer;
  values = values;
  nonce = "shedpilot-" <> layer <> "-" <> decimal s.version;
}

-- The state of a connection: its context is done, a send on it fails, or a send on it arrives.
pub data Link : Type 0 where
  closed broken open_link : Link

pub record World : Type 0 where
  pub server : Server
  pub link : ℕ → Link
  pub inbox : ℕ → Dict Response

-- A sidecar receives a response.
unfoldable pub accept : ℕ → Response → (ℕ → Dict Response) → ℕ → Dict Response
accept conn r inbox c = if nat_eq c conn then insert r.layer r (inbox c) else inbox c

-- An identity of the sidecar, or one made up from the time in decimal.
unfoldable pub node_id : Option String → String → String
node_id none nanos = "unknown-" <> nanos
node_id (some id) nanos = if id == "" then "unknown-" <> nanos else id

-- StreamRuntime up to the unlock: the stream is registered, the current layers are copied.
unfoldable pub register : String → ℕ → World → World × Dict Values
register node conn w =
    let s = w.server in
    (record w { server = record s { streams = insert node conn s.streams } }, s.current)

-- pushToStream: the layers in order, up to the first send that fails.
unfoldable pub push_to_stream : (ℤ → String) → ℕ → Dict Values → World → World
push_to_stream decimal conn [] w = w
push_to_stream decimal conn (entry ∷ layers) w =
    let sent = record w {
      inbox = accept conn (build_response decimal w.server entry.0 entry.1) w.inbox;
    } in
    let rest = push_to_stream decimal conn layers sent in
    elim (w.link conn) [ open_link ↦ rest | _ ↦ w ]

-- A stream that is set up with nothing in between.
unfoldable pub connect : (ℤ → String) → String → ℕ → World → World
unfolding register push_to_stream
connect decimal node conn w =
    let (w', snapshot) = register node conn w in push_to_stream decimal conn snapshot w'

-- The end of StreamRuntime.
unfoldable pub disconnect : String → World → World
disconnect node w =
    let s = w.server in record w { server = record s { streams = erase node s.streams } }

-- A response to every registered stream: what arrives, and the nodes whose sends failed.
unfoldable pub broadcast :
    (ℕ → Link) → Response → Dict ℕ → (ℕ → Dict Response) → (ℕ → Dict Response) × List String
unfolding accept
broadcast link r [] inbox = (inbox, [])
broadcast link r (entry ∷ streams) inbox =
    let (inbox', errs) = broadcast link r streams inbox in
    elim (link entry.1) [
      | closed ↦ (inbox', errs)
      | broken ↦ (inbox', entry.0 ∷ errs)
      | open_link ↦ (accept entry.1 r inbox', errs)
    ]

-- The layer becomes current, and its response goes to every stream; the nodes that failed make the
-- error.
unfoldable pub push_layer : (ℤ → String) → String → Values → World → World × List String
unfolding broadcast
push_layer decimal layer values w =
    let s = record w.server {
      current = insert layer values w.server.current;
      version = inc 63 w.server.version;
    } in
    let (inbox, errs) =
      broadcast w.link (build_response decimal s layer values) s.streams w.inbox in
    (record w { server = s; inbox = inbox }, errs)

pub connected_count : Server → ℕ
connected_count s = length s.streams
