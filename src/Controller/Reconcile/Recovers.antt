-- ===== src/Controller/Reconcile/Recovers.antt =====
-- The conditions Ready and Degraded after a reconcile that acts.
use shedpilot.Common.{
  String, ap, ◌∙◌, ◌≡◌, refl, Bool, true, false, Option, none, some, List, ℕ, ℤ, pos, leb_ℤ, arith,
  Bool-cases, inl, inr, ◌==◌,
}
use shedpilot.Common.Float.{Float}
use shedpilot.Api.{
  AdaptivePolicy, AdaptivePolicyStatus, Condition, condition_ready, condition_degraded,
  condition_filter_effective, condition_signal_collection_available,
}
use shedpilot.Trigger.Types.{Signals, State, Decision}
use shedpilot.Renderer.Detect.{Backend}
use shedpilot.Controller.Conditions.{
  set_condition, status_at, status_at-set_condition, record_decision,
}
use shedpilot.Controller.FilterEffective.{
  watched, inactive_count, zero_ejections, ejections_observed, filter_is_ejecting, judge,
  observe_filter,
}
use shedpilot.Controller.Deliver.{render_with}
use shedpilot.Controller.Report.{Findings, report, refreshed, noted, collection, reconciled}
use shedpilot.Controller.Manager.{Manager, Env, Done}
use shedpilot.Controller.Reconcile.{reconcile, switching, delivered, finish, findings, collect}
use shedpilot.Controller.Reconcile.Acts.{Acts, reconcile-finish}

-- The statuses of Ready and Degraded in a status that is sent.
abbrev pub health : Option AdaptivePolicyStatus → Option String × Option String
health none = (none, none)
health (some status) =
    (status_at condition_ready status.conditions, status_at condition_degraded status.conditions)

both :
    {a b c d : Option String} → a ≡ b → c ≡ d → Path (Option String × Option String) (a, c) (b, d)
both e f = λ i. (e i, f i)

pub conditions-noted :
    (now : ℕ) (before : String) (arrived switched : Bool) (d : Decision) (s : AdaptivePolicyStatus)
    → (noted now before arrived switched d s).conditions ≡ s.conditions
unfolding noted record_decision
conditions-noted now before arrived switched d s = ground arith

pub status_at-collection :
    (now : ℕ) (available : Bool) (generation : ℤ) (conditions : List Condition) (kind : String)
    → (condition_signal_collection_available == kind) ≡ false
    → status_at kind (set_condition now (collection available generation) conditions)
      ≡ status_at kind conditions
status_at-collection now true generation conditions kind other =
    status_at-set_condition now (collection true generation) conditions kind ∙ rw other refl
status_at-collection now false generation conditions kind other =
    status_at-set_condition now (collection false generation) conditions kind ∙ rw other refl

module _ {F : Type 0} ⦃fl : Float F⦄ where
  status_at-judge :
      (now : ℕ) (policy : AdaptivePolicy) (signals : Signals F) (count : ℤ)
      (conditions : List Condition) (kind : String)
      → (condition_filter_effective == kind) ≡ false
      → status_at kind (judge now policy signals count conditions) ≡ status_at kind conditions
  unfolding judge zero_ejections ejections_observed
  status_at-judge now policy signals count conditions kind other =
      let set = λ (c : Condition). status_at-set_condition now c conditions kind in
      elim (Bool-cases (leb_ℤ (pos 3) count)) [
        | inl e ↦ rw e (set (zero_ejections policy signals count) ∙ rw other refl)
        | inr e ↦ elim (Bool-cases (filter_is_ejecting signals)) [
          | inl f ↦ rw (e, f) (set (ejections_observed policy signals) ∙ rw other refl)
          | inr f ↦ rw (e, f) refl
        ]
      ]

  status_at-observe_filter :
      (now : ℕ) (policy : AdaptivePolicy) (signals : Signals F) (available : Bool) (st : State)
      (conditions : List Condition) (kind : String)
      → (condition_filter_effective == kind) ≡ false
      → status_at kind (observe_filter now policy signals available st conditions).1
        ≡ status_at kind conditions
  unfolding observe_filter
  status_at-observe_filter now policy signals available st conditions kind other =
      let judged =
        status_at-judge now policy signals (inactive_count policy signals st) conditions kind
          other in
      elim (Bool-cases (watched policy available)) [ inl w ↦ rw w judged | inr w ↦ rw w refl ]

  health-report :
      (now : ℕ) (policy : AdaptivePolicy) (f : Findings F) (st : State)
      → health (some (report now policy f st).1)
        ≡ (some "True", status_at condition_degraded policy.status.conditions)
  unfolding report refreshed reconciled
  health-report now policy f st =
      let status =
        noted now f.before f.rtds_connected f.switched f.decision (refreshed now policy f) in
      let ready = set_condition now (reconciled policy f) status.conditions in
      let collected = set_condition now (collection f.available policy.generation) ready in
      let same =
        λ (kind : String) (a : (condition_filter_effective == kind) ≡ false)
            (b : (condition_signal_collection_available == kind) ≡ false).
          status_at-observe_filter now policy f.signals f.available st collected kind a
          ∙ status_at-collection now f.available policy.generation ready kind b
          ∙ status_at-set_condition now (reconciled policy f) status.conditions kind in
      let kept = ap (status_at condition_degraded) (
        conditions-noted now f.before f.rtds_connected f.switched f.decision
          (refreshed now policy f)) in
      both (same condition_ready refl refl) (same condition_degraded refl refl ∙ kept)

  -- A reconcile that acts says Ready, and leaves what the status said of Degraded: a policy that was
  -- degraded once is reported as degraded and ready from its recovery on.
  pub health-reconcile :
      (env : Env F) (key : String) (m : Manager F) (b : Backend) (read policy : AdaptivePolicy)
      → Acts env key m b read policy
      → health (reconcile env key m).status
        ≡ (some "True", status_at condition_degraded policy.status.conditions)
  unfolding finish
  health-reconcile env key m b read policy h =
      let sw = switching env key read m in
      let out =
        delivered {F = F} sw.switched b policy (render_with b policy).rtds_layers m.rtds_client
          m.world in
      ap (λ (done : Done F). health done.status) (reconcile-finish env key m b read policy h)
      ∙ health-report env.now policy
          (findings read.spec.active_profile b (collect env read m.snapshots) sw policy out.2)
          sw.state
