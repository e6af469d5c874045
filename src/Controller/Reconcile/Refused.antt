-- ===== src/Controller/Reconcile/Refused.antt =====
-- A decision to switch whose patch the server refuses.
use shedpilot.Common.{
  String, ap, ◌∙◌, ◌≡◌, refl, Bool, true, false, Option, none, some, ℕ, arith, ◌==◌,
}
use shedpilot.Common.Float.{Float}
use shedpilot.Api.{AdaptivePolicy, AdaptivePolicyStatus, DecisionRecord}
use shedpilot.Trigger.Types.{Signals, State}
use shedpilot.Common.Dict.{Dict}
use shedpilot.Rtds.Client.{Client, RuntimeValue}
use shedpilot.Rtds.Server.{World}
use shedpilot.Renderer.Detect.{Backend}
use shedpilot.Controller.Validate.{evaluate_and_switch, apply_decision}
use shedpilot.Controller.Conditions.{record_decision}
use shedpilot.Controller.Deliver.{render_with}
use shedpilot.Controller.Report.{Findings, report, refreshed, noted, record_of}
use shedpilot.Controller.Manager.{Manager, Env, Done}
use shedpilot.Controller.Reconcile.{reconcile, switching, delivered, finish, findings, collect}
use shedpilot.Controller.Reconcile.Acts.{Acts, reconcile-finish}

-- What a status that is sent records: the last decision, and the profile that is active.
abbrev pub recorded : Option AdaptivePolicyStatus → Option DecisionRecord × String
recorded none = (none, "")
recorded (some status) = (status.last_decision, status.active_profile)

module _ {F : Type 0} ⦃fl : Float F⦄ where
  recorded-report :
      (now : ℕ) (policy : AdaptivePolicy) (f : Findings F) (st : State)
      → f.decision.should_switch ≡ true
      → (f.decision.reason == "") ≡ false
      → recorded (some (report now policy f st).1) ≡ (
        some (record_of now f.before f.rtds_connected f.switched f.decision),
        policy.spec.active_profile,
      )
  unfolding report noted refreshed record_decision
  recorded-report now policy f st wants because = rw (wants, because) refl

  -- Whatever is decided, a patch that the server refuses is no switch.
  switched-evaluate_and_switch :
      (now : ℕ) (policy : AdaptivePolicy) (signals : Signals F) (st : State)
      → (evaluate_and_switch false now policy signals st).switched ≡ false
  unfolding evaluate_and_switch apply_decision
  switched-evaluate_and_switch now policy signals st = ground arith

  unswitched-switching :
      (env : Env F) (key : String) (policy : AdaptivePolicy) (m : Manager F)
      → env.patched ≡ false
      → (switching env key policy m).switched ≡ false
  unfolding switching
  unswitched-switching env key policy m refused = rw refused (switched-evaluate_and_switch _ _ _ _)

  undelivered :
      (switched : Bool) (b : Backend) (policy : AdaptivePolicy)
      (layers : Dict (Dict (RuntimeValue F))) (client : Option Client) (w : World)
      → switched ≡ false
      → (delivered switched b policy layers client w).2 ≡ false
  unfolding delivered
  undelivered switched b policy layers none w h = refl
  undelivered switched b policy layers (some c) w h = rw h refl

  -- In a reconcile of a valid policy, in a mesh that is detected, whose resources are all
  -- applied: a decision to switch, with its reason, whose patch the server refuses is reported
  -- as a switch; the last decision of the status goes from the active profile to the target,
  -- while the active profile that the status names is still the former.
  pub reconcile-Recorded :
      (env : Env F) (key : String) (m : Manager F) (b : Backend) (policy : AdaptivePolicy)
      → Acts env key m b policy policy
      → env.patched ≡ false
      → (switching env key policy m).decision.should_switch ≡ true
      → ((switching env key policy m).decision.reason == "") ≡ false
      → recorded (reconcile env key m).status ≡ (
        some (
            record_of env.now policy.spec.active_profile false false
              (switching env key policy m).decision),
        policy.spec.active_profile,
      )
  unfolding finish findings
  reconcile-Recorded env key m b policy h refused wants because =
      let sw = switching env key policy m in
      let out =
        delivered {F = F} sw.switched b policy (render_with b policy).rtds_layers m.rtds_client
          m.world in
      let stays = unswitched-switching env key policy m refused in
      let kept =
        undelivered sw.switched b policy (render_with b policy).rtds_layers m.rtds_client m.world
          stays in
      let made : Bool → Bool → Option DecisionRecord × String = λ arrived switched. (
        some (record_of env.now policy.spec.active_profile arrived switched sw.decision),
        policy.spec.active_profile,
      ) in
      let reported =
        recorded-report env.now policy
          (findings policy.spec.active_profile b (collect env policy m.snapshots) sw policy out.2)
          sw.state wants because in
      ap (λ (done : Done F). recorded done.status) (reconcile-finish env key m b policy policy h)
      ∙ reported
      ∙ ap (λ arrived. made arrived sw.switched) kept
      ∙ ap (made false) stays
