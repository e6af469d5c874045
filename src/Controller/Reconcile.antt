-- ===== src/Controller/Reconcile.antt =====
-- internal/controller/adaptivepolicy_controller.go: Reconcile, as the composition of its steps over what
-- the reconciler and the cluster hold. Every clock reading of a reconcile is the same `now`.
pub mod Stops
pub mod Cases
pub mod Memory
pub mod Acts
pub mod Level
pub mod Sheds
pub mod Switch
pub mod Delivers
pub mod Runs
pub mod Specs
pub mod Short
pub mod Verdicts
pub mod Refused
pub mod Recovers
use shedpilot.Common.{
  String, Bool, true, false, not, Option, none, some, List, [], ◌∷◌, ℕ, ℤ, pos, ◌<>◌, ◌&&◌,
  if◌then◌else◌,
}
use shedpilot.Controller.Manager.{
  Manager, Fetched, found, gone, unreachable, Env, Done, Collected, Complaint, unsupported,
  complaint, state_of, current, with_fetched, returned,
}
use shedpilot.Common.Dict.{Dict, lookup, insert, erase}
use shedpilot.Common.Float.{Float}
use shedpilot.Api.{AdaptivePolicy, AdaptivePolicyStatus}
use shedpilot.Trigger.Types.{Signals, State, new_state}
use shedpilot.Scraper.{
  CounterSnapshot, Pod, Reading, read_signals, safe_defaults, configured_ranges,
}
use shedpilot.Rtds.Server.{World}
use shedpilot.Rtds.Client.{Client, RuntimeValue, connected}
use shedpilot.Renderer.Result.{when_some, Resource, RenderResult}
use shedpilot.Renderer.Detect.{Backend, Cluster, detect_and_build}
use shedpilot.Controller.Pollers.{Pollers, ensure_poller, forget}
use shedpilot.Controller.Validate.{Invalid, Switched, validate_policy, evaluate_and_switch}
use shedpilot.Controller.Messages.{Texts, reason_of, message_of}
use shedpilot.Controller.Conditions.{mark_degraded}
use shedpilot.Controller.Detection.{scrape_interval}
use shedpilot.Controller.Deliver.{
  Answers, apply_all, prune_orphaned_resources, render_with, register_layers, push_layers,
  rtds_supported, backend_name,
}
use shedpilot.Controller.Report.{Findings, report}

module _ {F : Type 0} where
  unfoldable pub degraded : Env F → AdaptivePolicy → Complaint → ℤ → Manager F → Done F
  unfolding mark_degraded
  degraded env policy c requeue_after m = record {
    manager = m;
    requeue_after = requeue_after;
    failed = false;
    status = some (record policy.status {
      conditions =
          mark_degraded env.now c.reason c.message policy.generation policy.status.conditions;
    });
  }

  -- Step 1 for a policy that is gone.
  unfoldable pub forgotten : String → Manager F → Manager F
  unfolding forget
  forgotten key m = record m {
    trigger_states = erase key m.trigger_states;
    pollers = forget key m.pollers;
  }

  -- Step 6: nothing is applied after a switch.
  unfoldable pub applied :
      Bool → Answers → RenderResult F → Dict (Resource F) → Dict (Resource F) × Option String
  applied true a res objects = (objects, none)
  applied false a res objects = apply_all a res.resources objects

module _ {F : Type 0} ⦃fl : Float F⦄ where
  abbrev from_reading : Reading F → ℕ → Collected F
  from_reading r now = record {
    signals = if r.failed then safe_defaults now else r.signals;
    available = not r.failed;
    snapshots = r.snapshots;
  }

  -- Step 3: the poller's signal if there is one, else a scrape.
  unfoldable pub collect : Env F → AdaptivePolicy → Dict (CounterSnapshot F) → Collected F
  unfolding read_signals configured_ranges
  collect env policy snapshots = elim env.polled [
    | some signals ↦ record { signals = signals; available = true; snapshots = snapshots }
    | none ↦
        from_reading (read_signals env.now (configured_ranges policy) env.pods snapshots) env.now
  ]

  -- Step 7: the layers are registered; they are pushed only after a switch.
  unfoldable pub delivered :
      Bool
      → Backend
      → AdaptivePolicy
      → Dict (Dict (RuntimeValue F))
      → Option Client
      → World
      → Option Client × World × Bool
  unfolding register_layers push_layers
  delivered switched b policy layers none w = (none, w, false)
  delivered switched b policy layers (some c) w =
      let c' = register_layers policy layers c in
      let (w', arrived) = push_layers c' layers w in
      if switched && connected c' && rtds_supported b
      then (some c', w', arrived)
      else (some c', w, false)

  unfoldable pub findings :
      String → Backend → Collected F → Switched → AdaptivePolicy → Bool → Findings F
  unfolding render_with
  findings before b seen sw policy arrived = record {
    backend = backend_name b;
    result = render_with b policy;
    before = before;
    decision = sw.decision;
    switched = sw.switched;
    signals = seen.signals;
    available = seen.available;
    rtds_connected = arrived;
  }

  -- Steps 6b to 8, once the resources are applied.
  unfoldable pub finish :
      Env F
      → String
      → String
      → Backend
      → Collected F
      → Switched
      → AdaptivePolicy
      → Manager F
      → Done F
  unfolding render_with prune_orphaned_resources delivered findings report
  finish env key before b seen sw policy m =
      let res = render_with b policy in
      let (client, world, arrived) =
        delivered sw.switched b policy res.rtds_layers m.rtds_client m.world in
      let (st, status) =
        report env.now policy (findings before b seen sw policy arrived) sw.state in
      record {
        manager = record m {
          trigger_states = insert key st m.trigger_states;
          rtds_client = client;
          world = world;
          objects = prune_orphaned_resources env.answers policy res.managed_resource_refs m.objects;
        };
        requeue_after = scrape_interval policy;
        failed = false;
        status = some status;
      }

  -- Steps 5 to 8.
  unfoldable pub deliver :
      Env F
      → String
      → String
      → Backend
      → Collected F
      → Switched
      → AdaptivePolicy
      → Manager F
      → Done F
  unfolding render_with applied degraded finish
  deliver env key before b seen sw policy m =
      let (objects, refusal) = applied sw.switched env.answers (render_with b policy) m.objects in
      let m' : Manager F = record m { objects = objects } in
      when_some refusal (finish env key before b seen sw policy m') (λ error.
        degraded env policy (record { reason = "ApplyFailed"; message = error }) (pos 15000000000)
          m')

  -- Step 4, on the signals of step 3.
  unfoldable pub switching : Env F → String → AdaptivePolicy → Manager F → Switched
  unfolding collect evaluate_and_switch
  switching env key policy m =
      evaluate_and_switch env.patched env.now policy (collect env policy m.snapshots).signals
        (state_of (lookup key m.trigger_states))

  -- Steps 3 to 8.
  unfoldable pub act : Env F → String → Backend → AdaptivePolicy → Manager F → Done F
  unfolding ensure_poller collect switching deliver
  act env key b policy m =
      let seen = collect env policy m.snapshots in
      let sw = switching env key policy m in
      let m' : Manager F = record m {
        trigger_states = insert key sw.state m.trigger_states;
        pollers = ensure_poller key policy m.pollers;
        snapshots = seen.snapshots;
      } in
      with_fetched (current sw.switched env.refetched policy)
        (λ p. deliver env key policy.spec.active_profile b seen sw p m') (returned false m')
        (returned true m')

  -- Steps 1.5 to 8.
  unfoldable pub reconcile_found : Env F → String → AdaptivePolicy → Manager F → Done F
  unfolding validate_policy detect_and_build degraded act
  reconcile_found env key policy m =
      when_some (validate_policy policy)
        (when_some (detect_and_build env.cluster policy)
          (degraded env policy unsupported (pos 30000000000) m) (λ b. act env key b policy m))
        (λ i. degraded env policy (complaint env.texts policy i) (pos 30000000000) m)

  unfoldable pub reconcile : Env F → String → Manager F → Done F
  unfolding reconcile_found forgotten
  reconcile env key m =
      with_fetched env.fetched (λ policy. reconcile_found env key policy m)
        (returned false (forgotten key m)) (returned true m)
