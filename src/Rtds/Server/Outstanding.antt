-- ===== src/Rtds/Server/Outstanding.antt =====
-- StreamRuntime and PushLayer of several goroutines, lock by lock and send by send: both release the lock
-- before they send, so the sends of all of them are outstanding together and arrive in any order.
pub mod Due
pub mod Sends
pub mod Settled
use shedpilot.Common.{
  String, Bool, true, false, ◌≡◌, List, [], ◌∷◌, ◌++◌, ℕ, ℤ, inc, All, ◌==◌, ◌&&◌, nat_eq,
  if◌then◌else◌, is_nonempty,
}
use shedpilot.Common.Dict.{Dict, insert}
use shedpilot.Rtds.Server.{
  Values, Server, new_server, Response, Link, open_link, World, accept, register, disconnect,
}
use shedpilot.Rtds.Server.Delivery.{is_open}

-- A send that a goroutine has still to make.
pub record Send : Type 0 where
  pub conn : ℕ
  pub layer : String
  pub values : Values

-- `mixed` notes the layers that were pushed to a connection while a send of them to it was outstanding.
pub record Serving : Type 0 where
  pub world : World
  pub sends : List Send
  pub mixed : ℕ → String → Bool

-- The outstanding sends of a layer to a connection.
abbrev pub outstanding : ℕ → String → List Send → List Values
outstanding conn layer [] = []
outstanding conn layer (x ∷ xs) =
    let rest = outstanding conn layer xs in
    if nat_eq x.conn conn && (x.layer == layer) then x.values ∷ rest else rest

-- The replay of a snapshot.
abbrev pub replay : ℕ → Dict Values → List Send
replay conn [] = []
replay conn (entry ∷ layers) =
    record { conn = conn; layer = entry.0; values = entry.1 } ∷ replay conn layers

-- A response for every stream.
abbrev pub responses : String → Values → Dict ℕ → List Send
responses layer values [] = []
responses layer values (entry ∷ streams) =
    record { conn = entry.1; layer = layer; values = values } ∷ responses layer values streams

-- StreamRuntime up to its unlock.
unfoldable pub begin : String → ℕ → Serving → Serving
unfolding register
begin node conn s =
    let (w, snapshot) = register node conn s.world in
    record {
      world = w;
      sends = replay conn snapshot ++ s.sends;
      mixed = λ c layer. if nat_eq c conn then false else s.mixed c layer;
    }

-- PushLayer up to its unlock.
unfoldable pub publish : String → Values → Serving → Serving
publish layer values s =
    let server = s.world.server in
    record {
      world = record s.world {
        server = record server {
          current = insert layer values server.current;
          version = inc 63 server.version;
        };
      };
      sends = responses layer values server.streams ++ s.sends;
      mixed = λ c l. if layer == l then is_nonempty (outstanding c layer s.sends) else s.mixed c l;
    }

-- A send that arrives: a response of whatever version with the layer and its values.
unfoldable pub arrive : Response → ℕ → List Send → Serving → Serving
unfolding accept
arrive r conn sends s = record s {
  world = record s.world { inbox = accept conn r s.world.inbox };
  sends = sends;
}

-- One lock, one send, or what happens to a link. A new stream's connection is new.
pub data Move : Serving → Serving → Type 0 where
  began :
      (node : String) (conn : ℕ) (s : Serving)
      → s.world.link conn ≡ open_link
      → All (λ (x : Send). nat_eq x.conn conn ≡ false) s.sends
      → Move s (begin node conn s)
  published : (layer : String) (values : Values) (s : Serving) → Move s (publish layer values s)
  arrived :
      (x : Send) (pre post : List Send) (r : Response) (s : Serving)
      → s.sends ≡ pre ++ x ∷ post
      → r.layer ≡ x.layer
      → r.values ≡ x.values
      → s.world.link x.conn ≡ open_link
      → Move s (arrive r x.conn (pre ++ post) s)
  lost :
      (x : Send) (pre post : List Send) (s : Serving)
      → s.sends ≡ pre ++ x ∷ post
      → is_open (s.world.link x.conn) ≡ false
      → Move s (record s { sends = pre ++ post })
  ended : (node : String) (s : Serving) → Move s (record s { world = disconnect node s.world })
  failed :
      (link : ℕ → Link) (s : Serving)
      → ((conn : ℕ) → link conn ≡ open_link → s.world.link conn ≡ open_link)
      → Move s (record s { world = record s.world { link = link } })

pub data Interleaving : Serving → Type 0 where
  started :
      (link : ℕ → Link) (inbox : ℕ → Dict Response)
      → Interleaving (record {
        world = record { server = new_server; link = link; inbox = inbox };
        sends = [];
        mixed = λ conn layer. false;
      })
  moved : {s t : Serving} → Interleaving s → Move s t → Interleaving t
