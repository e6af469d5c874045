-- ===== src/System.antt =====
-- The reconciler (internal/controller), the RTDS server (internal/rtds) and the sidecars together: runs
-- of whole reconciles, of whatever policies, while sidecars come and go.
pub mod InSync
pub mod Persists
pub mod Lost
pub mod Watched
use shedpilot.Common.{String, ◌≡◌, Option, ℕ}
use shedpilot.Common.Dict.{Dict}
use shedpilot.Common.Float.{Float}
use shedpilot.Rtds.Server.{new_server, Response, Link, open_link, connect, disconnect}
use shedpilot.Rtds.Client.{Client}
use shedpilot.Renderer.Result.{Resource}
use shedpilot.Controller.Manager.{Manager, Env, new_manager}
use shedpilot.Controller.Reconcile.{reconcile}

module _ {F : Type 0} ⦃fl : Float F⦄ where
  -- A new stream is open; a link may fail or close at any time.
  pub data Step : Manager F → Manager F → Type 0 where
    reconciled : (env : Env F) (key : String) (m : Manager F) → Step m (reconcile env key m).manager
    joined :
        (node : String) (conn : ℕ) (m : Manager F)
        → m.world.link conn ≡ open_link
        → Step m (record m { world = connect fl.decimal node conn m.world })
    left : (node : String) (m : Manager F) → Step m (record m { world = disconnect node m.world })
    failed :
        (link : ℕ → Link) (m : Manager F)
        → ((conn : ℕ) → link conn ≡ open_link → m.world.link conn ≡ open_link)
        → Step m (record m { world = record m.world { link = link } })

  -- The states that a new reconciler and a new server reach.
  pub data Reach : Manager F → Type 0 where
    started :
        (client : Option Client) (link : ℕ → Link) (inbox : ℕ → Dict Response)
        (objects : Dict (Resource F))
        → Reach (
            new_manager client (record { server = new_server; link = link; inbox = inbox }) objects)
    later : {m n : Manager F} → Reach m → Step m n → Reach n
