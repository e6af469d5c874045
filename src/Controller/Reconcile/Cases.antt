-- ===== src/Controller/Reconcile/Cases.antt =====
-- The ways in which a reconcile ends, for a property of what comes of it.
use shedpilot.Common.{◌≡◌, refl, String, Bool, false, Option, none, some, ℤ}
use shedpilot.Common.Dict.{Dict, insert}
use shedpilot.Common.Float.{Float}
use shedpilot.Api.{AdaptivePolicy, AdaptivePolicyStatus}
use shedpilot.Renderer.Result.{Resource, when_some}
use shedpilot.Renderer.Detect.{Backend, detect_and_build}
use shedpilot.Controller.Pollers.{ensure_poller}
use shedpilot.Controller.Validate.{validate_policy}
use shedpilot.Controller.Deliver.{render_with}
use shedpilot.Controller.Manager.{
  Manager, Fetched, found, gone, unreachable, Env, Done, current, with_fetched, returned,
}
use shedpilot.Controller.Reconcile.{
  reconcile, reconcile_found, act, deliver, finish, forgotten, degraded, switching, applied,
  collect,
}

module _ {F : Type 0} (P : Done F → Type 0) where
  with_fetched-at :
      (x : Fetched) (f : AdaptivePolicy → Done F) (missing failing : Done F)
      → ((policy : AdaptivePolicy) → x ≡ found policy → P (f policy))
      → P missing
      → P failing
      → P (with_fetched x f missing failing)
  with_fetched-at (found policy) f missing failing h j k = h policy refl
  with_fetched-at gone f missing failing h j k = j
  with_fetched-at unreachable f missing failing h j k = k

  when_some-at {ℓ} :
      {A : Type ℓ} (o : Option A) (done : Done F) (f : A → Done F)
      → (o ≡ none → P done)
      → ((a : A) → o ≡ some a → P (f a))
      → P (when_some o done f)
  when_some-at none done f h k = h refl
  when_some-at (some a) done f h k = k a refl

module _ {F : Type 0} ⦃fl : Float F⦄ where
  -- What the reconciler holds when it has evaluated the triggers.
  abbrev pub evaluated : Env F → String → AdaptivePolicy → Manager F → Manager F
  evaluated env key policy m = record m {
    trigger_states = insert key (switching env key policy m).state m.trigger_states;
    pollers = ensure_poller key policy m.pollers;
    snapshots = (collect env policy m.snapshots).snapshots;
  }

  -- A reconcile that evaluates the triggers, ends early or with the last steps.
  pub act-cases :
      (P : Done F → Type 0) (env : Env F) (key : String) (b : Backend) (policy : AdaptivePolicy)
      (m : Manager F)
      → ((p : AdaptivePolicy) (objects : Dict (Resource F))
          → P (
              finish env key policy.spec.active_profile b
                (collect env policy m.snapshots)
                (switching env key policy m)
                p
                (record (evaluated env key policy m) { objects = objects })))
      → ((objects : Dict (Resource F)) (after : ℤ) (failed : Bool)
            (status : Option AdaptivePolicyStatus)
          → P (record {
            manager = record (evaluated env key policy m) { objects = objects };
            requeue_after = after;
            failed = failed;
            status = status;
          }))
      → P (act env key b policy m)
  unfolding act deliver degraded
  act-cases P env key b policy m finished stopped =
      let sw = switching env key policy m in
      with_fetched-at P (current sw.switched env.refetched policy) _ _ _
        (λ p read.
          when_some-at P (applied sw.switched env.answers (render_with b p) m.objects).1 _ _
            (λ taken. finished p _) (λ error refused. stopped _ _ _ _))
        (stopped m.objects _ _ _) (stopped m.objects _ _ _)

  -- A reconcile of a policy that is there stops, or evaluates the triggers.
  pub reconcile-cases :
      (P : Done F → Type 0) (env : Env F) (key : String) (m : Manager F)
      → ((policy : AdaptivePolicy) (b : Backend)
          → env.fetched ≡ found policy
          → validate_policy policy ≡ none
          → detect_and_build env.cluster policy ≡ some b
          → P (act env key b policy m))
      → P (returned false (forgotten key m))
      → ((after : ℤ) (failed : Bool) (status : Option AdaptivePolicyStatus)
          → P (record { manager = m; requeue_after = after; failed = failed; status = status }))
      → P (reconcile env key m)
  unfolding reconcile reconcile_found degraded
  reconcile-cases P env key m acts forgot halted =
      with_fetched-at P env.fetched _ _ _
        (λ policy read.
          when_some-at P (validate_policy policy) _ _
            (λ accepted.
              when_some-at P (detect_and_build env.cluster policy) _ _ (λ unmeshed. halted _ _ _)
                (λ b meshed. acts policy b read accepted meshed))
            (λ i refused. halted _ _ _))
        forgot (halted _ _ _)

  -- A valid policy in a mesh that is detected is acted on.
  pub reconcile-act :
      (env : Env F) (key : String) (m : Manager F) (policy : AdaptivePolicy) (b : Backend)
      → env.fetched ≡ found policy
      → validate_policy policy ≡ none
      → detect_and_build env.cluster policy ≡ some b
      → reconcile env key m ≡ act env key b policy m
  unfolding reconcile reconcile_found
  reconcile-act env key m policy b read accepted meshed = rw (read, accepted, meshed) refl
