-- ===== src/Controller/Reconcile/Short.antt =====
-- Reconciles of a policy that is there which end before their last step.
use shedpilot.Common.{
  String, ap, ◌∙◌, ◌≡◌, ◌⊎◌, refl, true, Option, none, some, List, ℕ, ℤ, Bool-cases, Option-cases,
  inl, inr,
}
use shedpilot.Common.Dict.{lookup, insert}
use shedpilot.Common.Float.{Float}
use shedpilot.Api.{
  AdaptivePolicy, AdaptivePolicyStatus, Condition, condition_filter_effective, has_triggers,
  is_human_override_enabled,
}
use shedpilot.Trigger.Types.{State}
use shedpilot.Trigger.Evaluate.Leaves.{inactive-evaluate}
use shedpilot.Renderer.Detect.{Backend, detect_and_build}
use shedpilot.Controller.Validate.{validate_policy, evaluate_and_switch, apply_decision}
use shedpilot.Controller.Validate.Sound.{Valid, validate_policy_iff}
use shedpilot.Controller.Conditions.{
  mark_degraded, status_at-set_condition, condition, set_condition,
}
use shedpilot.Controller.FilterEffective.Verdict.{status_of}
use shedpilot.Controller.Deliver.{render_with}
use shedpilot.Controller.Manager.{
  Manager, Env, Done, found, gone, unreachable, state_of, current, Complaint, unsupported,
  complaint,
}
use shedpilot.Controller.Reconcile.{
  reconcile, reconcile_found, act, deliver, degraded, switching, applied,
}
use shedpilot.Controller.Reconcile.Cases.{reconcile-act}
use shedpilot.Controller.Reconcile.Memory.{state_at, inserted}

-- The status of the condition in a status that is sent, or the one before.
abbrev pub shown : Option AdaptivePolicyStatus → Option String → Option String
shown none before = before
shown (some status) before = status_of status.conditions

status_of-mark_degraded :
    (now : ℕ) (reason message : String) (generation : ℤ) (conditions : List Condition)
    → status_of (mark_degraded now reason message generation conditions) ≡ status_of conditions
unfolding mark_degraded
status_of-mark_degraded now reason message generation conditions =
    let bad = condition "Degraded" "True" reason message generation in
    let unready = condition "Ready" "False" reason message generation in
    status_at-set_condition now unready (set_condition now bad conditions)
      condition_filter_effective
    ∙ status_at-set_condition now bad conditions condition_filter_effective

module _ {F : Type 0} ⦃fl : Float F⦄ where
  pub inactive-switching :
      (env : Env F) (key : String) (policy : AdaptivePolicy) (m : Manager F)
      → (switching env key policy m).state.consecutive_filter_inactive
        ≡ (state_at key m).consecutive_filter_inactive
  unfolding switching evaluate_and_switch apply_decision
  inactive-switching env key policy m = elim (Bool-cases (is_human_override_enabled policy)) [
    | inl e ↦ rw e refl
    | inr e ↦ elim (Bool-cases (has_triggers policy)) [
      | inl f ↦ rw (e, f) (inactive-evaluate env.now policy _ (state_at key m))
      | inr f ↦ rw (e, f) refl
    ]
  ]

  -- The policy cannot be read, is refused, is not read again after a switch, or its resources are not
  -- all applied. A policy that is marked has the condition that was said last.
  pub data Short (env : Env F) (key : String) (m : Manager F) (said : Option String) : Type 0 where
    unread : env.fetched ≡ unreachable → Short env key m said
    unfit :
        (read : AdaptivePolicy)
        → env.fetched ≡ found read
        → (Valid read → detect_and_build env.cluster read ≡ none)
        → status_of read.status.conditions ≡ said
        → Short env key m said
    lost :
        (read : AdaptivePolicy) (b : Backend)
        → env.fetched ≡ found read
        → validate_policy read ≡ none
        → detect_and_build env.cluster read ≡ some b
        → (switching env key read m).switched ≡ true
        → (env.refetched ≡ gone) ⊎ (env.refetched ≡ unreachable)
        → Short env key m said
    unapplied :
        (read policy : AdaptivePolicy) (b : Backend) (error : String)
        → env.fetched ≡ found read
        → validate_policy read ≡ none
        → detect_and_build env.cluster read ≡ some b
        → current (switching env key read m).switched env.refetched read ≡ found policy
        → (applied
            (switching env key read m).switched
            env.answers
            (render_with b policy)
            m.objects).1
          ≡ some error
        → status_of policy.status.conditions ≡ said
        → Short env key m said

  -- It leaves the count of the filter, and says of the condition what was said before.
  pub record Leaves (key : String) (m : Manager F) (said : Option String) (done : Done F)
      : Type 0 where
    pub count :
        (state_at key done.manager).consecutive_filter_inactive
        ≡ (state_at key m).consecutive_filter_inactive
    pub says : shown done.status said ≡ said

  degraded-Leaves :
      (env : Env F) (key : String) (policy : AdaptivePolicy) (c : Complaint) (after : ℤ)
      (m m' : Manager F) (said : Option String)
      → (state_at key m').consecutive_filter_inactive ≡ (state_at key m).consecutive_filter_inactive
      → status_of policy.status.conditions ≡ said
      → Leaves key m said (degraded env policy c after m')
  unfolding degraded
  degraded-Leaves env key policy c after m m' said same back = record {
    count = same;
    says =
        status_of-mark_degraded env.now c.reason c.message policy.generation
          policy.status.conditions
        ∙ back;
  }

  evaluated-count :
      (env : Env F) (key : String) (read : AdaptivePolicy) (m : Manager F)
      → (state_of (
          lookup key (
            insert key
              (switching env key read m).state
              m.trigger_states))).consecutive_filter_inactive
        ≡ (state_at key m).consecutive_filter_inactive
  evaluated-count env key read m =
      ap (λ (st : State). st.consecutive_filter_inactive)
        (inserted key (switching env key read m).state m)
      ∙ inactive-switching env key read m

  lost-Leaves :
      (env : Env F) (key : String) (b : Backend) (read : AdaptivePolicy) (m : Manager F)
      (said : Option String)
      → (switching env key read m).switched ≡ true
      → (env.refetched ≡ gone) ⊎ (env.refetched ≡ unreachable)
      → Leaves key m said (act env key b read m)
  unfolding act
  lost-Leaves env key b read m said moved (inl e) =
      rw (moved, e) (record { count = evaluated-count env key read m; says = refl })
  lost-Leaves env key b read m said moved (inr e) =
      rw (moved, e) (record { count = evaluated-count env key read m; says = refl })

  unapplied-Leaves :
      (env : Env F) (key : String) (b : Backend) (read policy : AdaptivePolicy) (m : Manager F)
      (said : Option String) (error : String)
      → current (switching env key read m).switched env.refetched read ≡ found policy
      → (applied (switching env key read m).switched env.answers (render_with b policy) m.objects).1
        ≡ some error
      → status_of policy.status.conditions ≡ said
      → Leaves key m said (act env key b read m)
  unfolding act deliver
  unapplied-Leaves env key b read policy m said error again refused back =
      rw (again, refused)
        (degraded-Leaves env key policy _ _ m _ said (evaluated-count env key read m) back)

  pub Short-Leaves :
      (env : Env F) (key : String) (m : Manager F) (said : Option String)
      → Short env key m said
      → Leaves key m said (reconcile env key m)
  unfolding reconcile reconcile_found
  Short-Leaves env key m said (unread fetched) = rw fetched (record { count = refl; says = refl })
  Short-Leaves env key m said (unfit read fetched bad back) =
      elim (Option-cases (validate_policy read)) [
        | inl e ↦
            rw (fetched, e, bad ((validate_policy_iff read).0 e))
              (degraded-Leaves env key read unsupported _ m m said refl back)
        | inr (i, e) ↦
            rw (fetched, e)
              (degraded-Leaves env key read (complaint env.texts read i) _ m m said refl back)
      ]
  Short-Leaves env key m said (lost read b fetched accepted meshed moved (inl e)) =
      rw (reconcile-act env key m read b fetched accepted meshed)
        (lost-Leaves env key b read m said moved (inl e))
  Short-Leaves env key m said (lost read b fetched accepted meshed moved (inr e)) =
      rw (reconcile-act env key m read b fetched accepted meshed)
        (lost-Leaves env key b read m said moved (inr e))
  Short-Leaves env key m said
        (unapplied read policy b error fetched accepted meshed again refused back) =
      rw (reconcile-act env key m read b fetched accepted meshed)
        (unapplied-Leaves env key b read policy m said error again refused back)
