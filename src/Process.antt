-- ===== src/Process.antt =====
-- cmd/main.go: the start of the process. What the libraries answer is an argument; the goroutine that
-- serves RTDS runs beside what is here.
use shedpilot.Common.{
  String, ◌≡◌, refl, Bool, true, false, not, Option, none, some, List, ℕ, ℤ, pos, if◌then◌else◌,
  Bool-cases, inl, inr,
}
use shedpilot.Common.Dict.{Dict}
use shedpilot.Common.Float.{Float}
use shedpilot.Rtds.Client.{Client, new_client}
use shedpilot.Rtds.Server.{World}
use shedpilot.Renderer.Result.{Resource}
use shedpilot.Controller.Manager.{Manager, Env, new_manager}
use shedpilot.Controller.Reconcile.Runs.{after_reconciles, world-after_reconciles}

pub record Flags : Type 0 where
  pub metrics_addr : String
  pub probe_addr : String
  pub leader_elect : Bool
  pub enable_rtds : Bool
  pub rtds_port : ℤ

abbrev pub default_flags : Flags
default_flags = record {
  metrics_addr = ":8080";
  probe_addr = ":8081";
  leader_elect = true;
  enable_rtds = true;
  rtds_port = pos 15050;
}

-- The options of the manager that come from the flags.
pub record ManagerOptions : Type 0 where
  pub metrics_addr : String
  pub probe_addr : String
  pub leader_elect : Bool
  pub leader_election_id : String

pub manager_options : Flags → ManagerOptions
manager_options flags = record {
  metrics_addr = flags.metrics_addr;
  probe_addr = flags.probe_addr;
  leader_elect = flags.leader_elect;
  leader_election_id = "shedpilot.resilience.shedpilot.io";
}

-- Whether the calls succeed: making a manager with options, setting up the controller, adding the
-- probes, and running until the process is told to stop.
pub record Calls : Type 0 where
  pub makes_manager : ManagerOptions → Bool
  pub sets_up : Bool
  pub adds_healthz : Bool
  pub adds_readyz : Bool
  pub runs : Bool

-- The client that the reconciler gets; NewClient returns no error.
unfoldable pub rtds_client : Flags → Option Client
rtds_client flags = if flags.enable_rtds then some (new_client true) else none

module _ {F : Type 0} where
  -- The code that the process exits with, and the manager that ran, if it came that far; `ran` is what
  -- the reconciles made of it.
  unfoldable pub main :
      Flags → Calls → World → Dict (Resource F) → (Manager F → Manager F) → ℕ × Option (Manager F)
  unfolding rtds_client manager_options
  main flags calls world objects ran =
      let last = ran (new_manager (rtds_client flags) world objects) in
      if not (calls.makes_manager (manager_options flags))
      then (1, none)
      else if not calls.sets_up
      then (1, none)
      else if not calls.adds_healthz
      then (1, none)
      else if not calls.adds_readyz
      then (1, none)
      else if calls.runs
      then (0, some last)
      else (1, some last)

  -- What the sidecars hold when the process is over.
  abbrev pub world_of : World → Option (Manager F) → World
  world_of world none = world
  world_of world (some m) = m.world

  -- The branches of main: none changes a sidecar that the reconciles leave alone.
  world-main :
      (flags : Flags) (calls : Calls) (world : World) (objects : Dict (Resource F))
      (ran : Manager F → Manager F)
      → (ran (new_manager (rtds_client flags) world objects)).world ≡ world
      → world_of world (main flags calls world objects ran).1 ≡ world
  unfolding main
  world-main flags calls world objects ran idle =
      elim (Bool-cases (calls.makes_manager (manager_options flags))) [
        | inl e ↦ rw e (elim (Bool-cases calls.sets_up) [
          | inl f ↦ rw f (elim (Bool-cases calls.adds_healthz) [
            | inl g ↦ rw g (elim (Bool-cases calls.adds_readyz) [
              | inl h ↦
                  rw h (elim (Bool-cases calls.runs) [ inl k ↦ rw k idle | inr k ↦ rw k idle ])
              | inr h ↦ rw h refl
            ])
            | inr g ↦ rw g refl
          ])
          | inr f ↦ rw f refl
        ])
        | inr e ↦ rw e refl
      ]

module _ {F : Type 0} ⦃fl : Float F⦄ where
  -- With RTDS disabled no sidecar ever receives anything from the reconciles, whatever they meet and
  -- however the process ends.
  pub main-without_rtds :
      (flags : Flags) (calls : Calls) (world : World) (objects : Dict (Resource F))
      (runs : List (Env F × String))
      → flags.enable_rtds ≡ false
      → world_of world (main flags calls world objects (λ m. after_reconciles m runs)).1 ≡ world
  unfolding main rtds_client
  main-without_rtds flags calls world objects runs off =
      world-main flags calls world objects (λ m. after_reconciles m runs)
        (rw off (world-after_reconciles world objects runs))
