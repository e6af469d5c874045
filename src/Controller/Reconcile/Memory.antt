-- ===== src/Controller/Reconcile/Memory.antt =====
-- What a reconcile leaves of the trigger states: its own policy's, and those of the others.
use shedpilot.Common.{
  ap, subst, sym, ◌∙◌, ◌≡◌, refl, String, Bool, true, false, none, some, List, ℕ, Bool-cases, inl,
  inr, eq_iff, arith, ◌==◌, ◌&&◌,
}
use shedpilot.Common.Dict.{Dict, lookup, insert, lookup-insert, lookup-erase}
use shedpilot.Common.Float.{Float}
use shedpilot.Api.{AdaptivePolicy, has_triggers, is_human_override_enabled, Condition}
use shedpilot.Trigger.Types.{Signals, State}
use shedpilot.Trigger.Evaluate.{evaluate}
use shedpilot.Renderer.Detect.{Backend, detect_and_build}
use shedpilot.Controller.Validate.{Switched, validate_policy, evaluate_and_switch, apply_decision}
use shedpilot.Controller.FilterEffective.{watched, observe_filter}
use shedpilot.Controller.Deliver.{render_with}
use shedpilot.Controller.Report.{Findings, report}
use shedpilot.Controller.Manager.{Manager, found, Env, Done, Collected, state_of}
use shedpilot.Controller.Reconcile.{
  reconcile, reconcile_found, finish, forgotten, findings, delivered, switching, collect,
}
use shedpilot.Controller.Reconcile.Cases.{evaluated, act-cases, reconcile-cases}

-- Two states with the same counters and fire times.
pub record SameTriggers (a b : State) : Type 0 where
  pub counts : a.consecutive_bad_samples ≡ b.consecutive_bad_samples
  pub times : a.last_trigger_fire_time ≡ b.last_trigger_fire_time

lookup-insert_away {ℓ} :
    {V : Type ℓ} (other key : String) (value : V) (entries : Dict V)
    → (other == key) ≡ false
    → lookup key (insert other value entries) ≡ lookup key entries
lookup-insert_away other key value entries away =
    lookup-insert other key value entries ∙ rw away refl

module _ {F : Type 0} ⦃fl : Float F⦄ where
  -- The evaluator's state for a policy.
  abbrev pub state_at : String → Manager F → State
  state_at key m = state_of (lookup key m.trigger_states)

  pub inserted :
      (key : String) (st : State) (m : Manager F)
      → state_of (lookup key (insert key st m.trigger_states)) ≡ st
  inserted key st m =
      ap state_of (lookup-insert key key st m.trigger_states) ∙ ground (arith, eq_iff key key)

  state-observe_filter :
      (now : ℕ) (policy : AdaptivePolicy) (signals : Signals F) (available : Bool) (st : State)
      (conditions : List Condition)
      → SameTriggers (observe_filter now policy signals available st conditions).0 st
  unfolding observe_filter
  state-observe_filter now policy signals available st conditions =
      elim (Bool-cases (watched policy available)) [
        | inl w ↦ rw w (record { counts = refl; times = refl })
        | inr w ↦ rw w (record { counts = refl; times = refl })
      ]

  state-report :
      (now : ℕ) (policy : AdaptivePolicy) (f : Findings F) (st : State)
      → SameTriggers (report now policy f st).0 st
  unfolding report
  state-report now policy f st = state-observe_filter now policy f.signals f.available st _

  state-finish :
      (env : Env F) (key before : String) (b : Backend) (seen : Collected F) (sw : Switched)
      (policy : AdaptivePolicy) (m : Manager F)
      → SameTriggers (state_at key (finish env key before b seen sw policy m).manager) sw.state
  unfolding finish
  state-finish env key before b seen sw policy m =
      let out =
        delivered sw.switched b policy (render_with b policy).rtds_layers m.rtds_client m.world in
      let found_out = findings before b seen sw policy out.2 in
      subst (λ s. SameTriggers s sw.state)
        (sym (inserted key (report env.now policy found_out sw.state).0 m))
        (state-report env.now policy found_out sw.state)

  -- A reconcile that evaluates the triggers leaves its policy's state as the evaluation left it.
  pub state-reconcile :
      (env : Env F) (key : String) (m : Manager F) (policy : AdaptivePolicy) {b : Backend}
      → env.fetched ≡ found policy
      → validate_policy policy ≡ none
      → detect_and_build env.cluster policy ≡ some b
      → SameTriggers (state_at key (reconcile env key m).manager) (switching env key policy m).state
  unfolding reconcile reconcile_found
  state-reconcile env key m policy {b} read accepted meshed =
      let sw = switching env key policy m in
      let Same : Done F → Type 0 = λ done. SameTriggers (state_at key done.manager) sw.state in
      rw (read, accepted, meshed)
        (act-cases Same env key b policy m
          (λ p objects.
            state-finish env key policy.spec.active_profile b (collect env policy m.snapshots) sw p
              (record (evaluated env key policy m) { objects = objects }))
          (λ objects after failed status.
            rw (inserted key sw.state m) (record { counts = refl; times = refl })))

  -- The reconciles of other policies leave it alone.
  pub state-other :
      (env : Env F) (key other : String) (m : Manager F)
      → (other == key) ≡ false
      → lookup key (reconcile env other m).manager.trigger_states ≡ lookup key m.trigger_states
  unfolding finish forgotten
  state-other env key other m away =
      let Same : Done F → Type 0 =
        λ done. lookup key done.manager.trigger_states ≡ lookup key m.trigger_states in
      let kept = λ (st : State). lookup-insert_away other key st m.trigger_states away in
      reconcile-cases Same env other m
        (λ policy b read accepted meshed.
          act-cases Same env other b policy m
            (λ p objects.
              lookup-insert_away other key _ (evaluated env other policy m).trigger_states away
              ∙ kept _)
            (λ objects after failed status. kept _))
        (lookup-erase other key m.trigger_states ∙ rw away refl) (λ after failed status. refl)

  -- What a policy that is not overridden switches by.
  pub switching-evaluate :
      (env : Env F) (key : String) (m : Manager F) (policy : AdaptivePolicy)
      → is_human_override_enabled policy ≡ false
      → has_triggers policy ≡ true
      → ((switching env key policy m).state
          ≡ (evaluate env.now policy (collect env policy m.snapshots).signals (state_at key m)).1)
        × ((switching env key policy m).switched ≡ (
            (evaluate env.now policy
              (collect env policy m.snapshots).signals
              (state_at key m)).0.should_switch
            && env.patched))
  unfolding switching evaluate_and_switch apply_decision
  switching-evaluate env key m policy free triggers = rw (free, triggers) (refl, refl)
