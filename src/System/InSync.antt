-- ===== src/System/InSync.antt =====
-- What the sidecars hold in a run of the system.
use shedpilot.Common.{String, Bool, Option, none, some, [], ◌∷◌, Bool-cases, inl, inr, ◌&&◌}
use shedpilot.Common.Dict.{Dict}
use shedpilot.Common.Float.{Float}
use shedpilot.Api.{AdaptivePolicy}
use shedpilot.Rtds.Server.{World}
use shedpilot.Rtds.Server.Sync as Sync
use shedpilot.Rtds.Server.Sync.{Run, InSync, Run-InSync}
use shedpilot.Rtds.Client.{Client, RuntimeValue, connected, push, print_values}
use shedpilot.Renderer.Detect.{Backend}
use shedpilot.Controller.Manager.{Manager, new_manager}
use shedpilot.Controller.Deliver.{push_layers, register_layers, rtds_supported}
use shedpilot.Controller.Reconcile.{delivered}
use shedpilot.Controller.Reconcile.Runs.{Kept, reconcile-Holds}
use shedpilot.System.{Reach, started, later, reconciled, joined, left, failed}

module _ {F : Type 0} ⦃fl : Float F⦄ where
  push-Run :
      (c : Client) (layer : String) (values : Dict (RuntimeValue F)) (w : World)
      → Run fl.decimal w
      → Run fl.decimal (push c layer values w).0
  unfolding push
  push-Run c layer values w r = elim (Bool-cases (connected c)) [
    | inl e ↦ rw e (Sync.then_step w _ r (Sync.pushed layer (print_values values) w))
    | inr e ↦ rw e r
  ]

  push_layers-Run :
      (c : Client) (layers : Dict (Dict (RuntimeValue F))) (w : World)
      → Run fl.decimal w
      → Run fl.decimal (push_layers c layers w).0
  unfolding push_layers
  push_layers-Run c [] w r = r
  push_layers-Run c (entry ∷ layers) w r =
      push_layers-Run c layers (push c entry.0 entry.1 w).0 (push-Run c entry.0 entry.1 w r)

  delivered-Run :
      (switched : Bool) (b : Backend) (policy : AdaptivePolicy)
      (layers : Dict (Dict (RuntimeValue F))) (client : Option Client) (w : World)
      → Run fl.decimal w
      → Run fl.decimal (delivered switched b policy layers client w).1
  unfolding delivered
  delivered-Run switched b policy layers none w r = r
  delivered-Run switched b policy layers (some c) w r =
      let c' = register_layers policy layers c in
      elim (Bool-cases (switched && connected c' && rtds_supported b)) [
        | inl e ↦ rw e (push_layers-Run c' layers w r)
        | inr e ↦ rw e r
      ]

  running : Kept F (λ w c world. Run fl.decimal world)
  running = record {
    ensured = λ key generation w c world r. r;
    forgot = λ key w c world r. r;
    pushed =
        λ switched b policy layers w c world r. delivered-Run switched b policy layers c world r;
  }

  -- To the server every run of the system is one of its own.
  pub Reach-Run : {m : Manager F} → Reach m → Run fl.decimal m.world
  unfolding new_manager
  Reach-Run (started client link inbox objects) = Sync.started link inbox
  Reach-Run (later r (reconciled env key m)) = reconcile-Holds _ running env key m (Reach-Run r)
  Reach-Run (later r (joined node conn m is_on)) =
      Sync.then_step m.world _ (Reach-Run r) (Sync.connected node conn m.world is_on)
  Reach-Run (later r (left node m)) =
      Sync.then_step m.world _ (Reach-Run r) (Sync.disconnected node m.world)
  Reach-Run (later r (failed link m fewer)) =
      Sync.then_step m.world _ (Reach-Run r) (Sync.failed link m.world fewer)

  -- In every run of reconciles, of whatever policies and whatever they meet, while sidecars
  -- connect, disconnect and fail between them: the sidecar of every registered stream that is
  -- open holds the current values of every layer.
  pub Reach-InSync : {m : Manager F} → Reach m → InSync m.world
  Reach-InSync {m} r = Run-InSync fl.decimal m.world (Reach-Run r)
