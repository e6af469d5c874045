-- ===== src/Controller/Reconcile/Stops.antt =====
-- A reconcile that stops before it acts.
use shedpilot.Common.{
  String, ◌∙◌, ◌≡◌, refl, false, Option, none, some, List, ℕ, ℤ, pos, Option-cases, inl, inr,
}
use shedpilot.Common.Float.{Float}
use shedpilot.Api.{
  AdaptivePolicy, AdaptivePolicyStatus, Condition, condition_ready, condition_degraded,
}
use shedpilot.Renderer.Detect.{detect_and_build}
use shedpilot.Controller.Validate.{validate_policy}
use shedpilot.Controller.Validate.Sound.{Valid, validate_policy_iff}
use shedpilot.Controller.Conditions.{
  mark_degraded, status_at, status_at-set_condition, condition, set_condition,
}
use shedpilot.Controller.Manager.{Manager, Env, Done, found, Complaint, unsupported, complaint}
use shedpilot.Controller.Reconcile.{reconcile, reconcile_found, degraded}

-- The status that is sent says Degraded, and not Ready.
abbrev pub SaysDegraded : Option AdaptivePolicyStatus → Type 0
SaysDegraded none = ⊥
SaysDegraded (some status) =
    (status_at condition_degraded status.conditions ≡ some "True")
    × (status_at condition_ready status.conditions ≡ some "False")

-- Nothing changed but the status of the policy, and the next reconcile is in 30 s.
pub record Halted {F : Type 0} (m : Manager F) (done : Done F) : Type 0 where
  pub unchanged : done.manager ≡ m
  pub no_error : done.failed ≡ false
  pub requeued : done.requeue_after ≡ pos 30000000000
  pub reported : SaysDegraded done.status

mark_degraded-SaysDegraded :
    (now : ℕ) (reason message : String) (generation : ℤ) (conditions : List Condition)
    → (status_at condition_degraded (mark_degraded now reason message generation conditions)
        ≡ some "True")
      × (status_at condition_ready (mark_degraded now reason message generation conditions)
          ≡ some "False")
unfolding mark_degraded
mark_degraded-SaysDegraded now reason message generation conditions =
    let bad = condition condition_degraded "True" reason message generation in
    let unready = condition condition_ready "False" reason message generation in
    let first = λ (kind : String). status_at-set_condition now bad conditions kind in
    let second = λ (kind : String).
      status_at-set_condition now unready (set_condition now bad conditions) kind in
    (second condition_degraded ∙ first condition_degraded, second condition_ready)

module _ {F : Type 0} ⦃fl : Float F⦄ where
  degraded-Halted :
      (env : Env F) (policy : AdaptivePolicy) (c : Complaint) (m : Manager F)
      → Halted m (degraded env policy c (pos 30000000000) m)
  unfolding degraded
  degraded-Halted env policy c m = record {
    unchanged = refl;
    no_error = refl;
    requeued = refl;
    reported =
        mark_degraded-SaysDegraded env.now c.reason c.message policy.generation
          policy.status.conditions;
  }

  -- A reconcile acts only on a valid policy for which there is a mesh: otherwise it changes nothing but
  -- the status, which says Degraded and not Ready, and comes back in 30 s.
  pub reconcile-Halted :
      (env : Env F) (key : String) (policy : AdaptivePolicy) (m : Manager F)
      → env.fetched ≡ found policy
      → (Valid policy → detect_and_build env.cluster policy ≡ none)
      → Halted m (reconcile env key m)
  unfolding reconcile reconcile_found
  reconcile-Halted env key policy m read unfit = elim (Option-cases (validate_policy policy)) [
    | inl e ↦
        rw (read, e, unfit ((validate_policy_iff policy).0 e))
          (degraded-Halted env policy unsupported m)
    | inr (i, e) ↦ rw (read, e) (degraded-Halted env policy (complaint env.texts policy i) m)
  ]
