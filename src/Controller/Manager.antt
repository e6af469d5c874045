-- ===== src/Controller/Manager.antt =====
-- internal/controller/adaptivepolicy_controller.go: what the reconciler and the cluster hold, what a
-- reconcile meets, and what comes of it.
use shedpilot.Common.{pos, String, Bool, true, false, Option, none, some, List, [], ℕ, ℤ, ◌<>◌}
use shedpilot.Common.Dict.{Dict}
use shedpilot.Api.{AdaptivePolicy, AdaptivePolicyStatus}
use shedpilot.Trigger.Types.{Signals, State, new_state}
use shedpilot.Scraper.{CounterSnapshot, Pod}
use shedpilot.Rtds.Server.{World}
use shedpilot.Rtds.Client.{Client}
use shedpilot.Renderer.Result.{Resource}
use shedpilot.Renderer.Detect.{Cluster}
use shedpilot.Controller.Pollers.{Pollers, no_pollers}
use shedpilot.Controller.Validate.{Invalid}
use shedpilot.Controller.Messages.{Texts, reason_of, message_of}
use shedpilot.Controller.Deliver.{Answers}

-- The reconciler's fields that a reconcile changes, and the resources of the policy's namespace.
pub record Manager (F : Type 0) : Type 0 where
  pub trigger_states : Dict State
  pub pollers : Pollers
  pub snapshots : Dict (CounterSnapshot F)
  pub rtds_client : Option Client
  pub world : World
  pub objects : Dict (Resource F)

-- What a read of the policy gives.
pub data Fetched : Type 0 where
  found : AdaptivePolicy → Fetched
  gone unreachable : Fetched

-- What a reconcile meets: the policy, the mesh, the signal that waits in the poller's channel, the
-- pods that are listed, and the answers to its writes.
pub record Env (F : Type 0) : Type 0 where
  pub now : ℕ
  pub texts : Texts
  pub fetched : Fetched
  pub cluster : Cluster
  pub polled : Option (Signals F)
  pub pods : Option (List (Pod F))
  pub patched : Bool
  pub refetched : Fetched
  pub answers : Answers

-- The result: the delay until the next reconcile in nanoseconds, 0 for none; whether an error is
-- returned; the status that is sent.
pub record Done (F : Type 0) : Type 0 where
  pub manager : Manager F
  pub requeue_after : ℤ
  pub failed : Bool
  pub status : Option AdaptivePolicyStatus

pub record Collected (F : Type 0) : Type 0 where
  pub signals : Signals F
  pub available : Bool
  pub snapshots : Dict (CounterSnapshot F)

-- What to mark a policy with.
pub record Complaint : Type 0 where
  pub reason : String
  pub message : String

abbrev pub unsupported : Complaint
unsupported = record {
  reason = "MeshDetectionFailed";
  message =
      "no supported service mesh detected. Supported: Istio (istiod pod in istio-system), Cilium "
      <> "(cilium-envoy DaemonSet in kube-system). Set meshBackend explicitly if detection is "
      <> "incorrect";
}

abbrev pub complaint : Texts → AdaptivePolicy → Invalid → Complaint
complaint texts policy i = record { reason = reason_of i; message = message_of texts policy i }

abbrev pub state_of : Option State → State
state_of none = new_state
state_of (some st) = st

-- The policy that is rendered: after a switch it is read again.
abbrev pub current : Bool → Fetched → AdaptivePolicy → Fetched
current true refetched policy = refetched
current false refetched policy = found policy

module _ {F : Type 0} where
  -- A return without a status, with or without an error.
  abbrev pub returned : Bool → Manager F → Done F
  returned failed m = record { manager = m; requeue_after = pos 0; failed = failed; status = none }

  abbrev pub with_fetched : Fetched → (AdaptivePolicy → Done F) → Done F → Done F → Done F
  with_fetched (found policy) f missing failing = f policy
  with_fetched gone f missing failing = missing
  with_fetched unreachable f missing failing = failing

  -- NewAdaptivePolicyReconciler, in a cluster with the given sidecars and resources.
  unfoldable pub new_manager : Option Client → World → Dict (Resource F) → Manager F
  new_manager rtds_client world objects = record {
    trigger_states = [];
    pollers = no_pollers;
    snapshots = [];
    rtds_client = rtds_client;
    world = world;
    objects = objects;
  }
