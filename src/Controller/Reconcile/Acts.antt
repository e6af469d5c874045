-- ===== src/Controller/Reconcile/Acts.antt =====
-- A reconcile that acts: what it does to the cluster and to the sidecars, with and without a switch.
use shedpilot.Common.{
  String, ap, ◌∙◌, ◌≡◌, refl, Bool, true, false, Option, none, some, List, [], ℕ, arith,
}
use shedpilot.Common.Dict.{insert}
use shedpilot.Common.Float.{Float}
use shedpilot.Api.{AdaptivePolicy, AdaptivePolicyStatus, ManagedResource}
use shedpilot.Renderer.Detect.{Backend, detect_and_build}
use shedpilot.Controller.Validate.{validate_policy}
use shedpilot.Controller.Pollers.{ensure_poller}
use shedpilot.Controller.Deliver.{prune_orphaned_resources, render_with}
use shedpilot.Controller.Report.{Findings, report, refreshed, noted}
use shedpilot.Trigger.Types.{Decision, State}
use shedpilot.Controller.Conditions.{record_decision}
use shedpilot.Controller.Manager.{Manager, Env, Done, found, current, with_fetched, returned}
use shedpilot.Controller.Reconcile.{
  forgotten, reconcile, reconcile_found, act, deliver, finish, findings, switching, applied,
  delivered, collect,
}

-- The resources that a status names, none where no status is sent.
abbrev pub managed : Option AdaptivePolicyStatus → List ManagedResource
managed none = []
managed (some status) = status.managed_resources

managed-noted :
    (now : ℕ) (before : String) (arrived switched : Bool) (d : Decision) (s : AdaptivePolicyStatus)
    → (noted now before arrived switched d s).managed_resources ≡ s.managed_resources
unfolding noted record_decision
managed-noted now before arrived switched d s = ground arith

module _ {F : Type 0} ⦃fl : Float F⦄ where
  -- The reconcile acts on `read` through the backend, and renders `policy`, which is the policy that it
  -- read again where it switched; every application is taken.
  pub record Acts (env : Env F) (key : String) (m : Manager F) (b : Backend)
      (read policy : AdaptivePolicy) : Type 0 where
    pub fetched : env.fetched ≡ found read
    pub accepted : validate_policy read ≡ none
    pub backend : detect_and_build env.cluster read ≡ some b
    pub again : current (switching env key read m).switched env.refetched read ≡ found policy
    pub taken :
        (applied (switching env key read m).switched env.answers (render_with b policy) m.objects).1
        ≡ none

  -- What the reconciler and the cluster hold before the last steps of a reconcile.
  abbrev pub applied_to :
      Env F → String → Manager F → Backend → AdaptivePolicy → AdaptivePolicy → Manager F
  applied_to env key m b read policy =
      let sw = switching env key read m in
      record m {
        trigger_states = insert key sw.state m.trigger_states;
        pollers = ensure_poller key read m.pollers;
        snapshots = (collect env read m.snapshots).snapshots;
        objects = (applied sw.switched env.answers (render_with b policy) m.objects).0;
      }

  pub reconcile-finish :
      (env : Env F) (key : String) (m : Manager F) (b : Backend) (read policy : AdaptivePolicy)
      → Acts env key m b read policy
      → reconcile env key m
        ≡ finish env key read.spec.active_profile b
            (collect env read m.snapshots)
            (switching env key read m)
            policy
            (applied_to env key m b read policy)
  unfolding reconcile reconcile_found act deliver
  reconcile-finish env key m b read policy h =
      let start =
        ap
          (λ f.
            with_fetched f (λ p. reconcile_found env key p m) (returned false (forgotten key m))
              (returned true m))
          h.fetched in
      start ∙ rw (h.accepted, h.backend, h.again, h.taken) refl

  managed-report :
      (now : ℕ) (policy : AdaptivePolicy) (f : Findings F) (st : State)
      → (report now policy f st).1.managed_resources ≡ f.result.managed_resource_refs
  unfolding report refreshed
  managed-report now policy f st =
      managed-noted now f.before f.rtds_connected f.switched f.decision (refreshed now policy f)

  -- The status that a reconcile sends names what it rendered.
  pub managed-reconcile :
      (env : Env F) (key : String) (m : Manager F) (b : Backend) (read policy : AdaptivePolicy)
      → Acts env key m b read policy
      → managed (reconcile env key m).status ≡ (render_with {F = F} b policy).managed_resource_refs
  unfolding finish findings
  managed-reconcile env key m b read policy h =
      let sw = switching env key read m in
      let out =
        delivered {F = F} sw.switched b policy (render_with b policy).rtds_layers m.rtds_client
          m.world in
      ap (λ (done : Done F). managed done.status) (reconcile-finish env key m b read policy h)
      ∙ managed-report env.now policy
          (findings read.spec.active_profile b (collect env read m.snapshots) sw policy out.2)
          sw.state

  pub objects-reconcile :
      (env : Env F) (key : String) (m : Manager F) (b : Backend) (read policy : AdaptivePolicy)
      → Acts env key m b read policy
      → (reconcile env key m).manager.objects
        ≡ prune_orphaned_resources env.answers policy
            (render_with {F = F} b policy).managed_resource_refs
            (applied
              (switching env key read m).switched
              env.answers
              (render_with b policy)
              m.objects).0
  unfolding finish
  objects-reconcile env key m b read policy h =
      ap (λ (done : Done F). done.manager.objects) (reconcile-finish env key m b read policy h)
