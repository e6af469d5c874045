-- ===== src/Controller/Validate.antt =====
-- internal/controller/adaptivepolicy_controller.go: validatePolicy, and evaluateAndSwitch.
pub mod Sound
pub mod Switch
use shedpilot.Common.{
  String, Bool, true, false, not, Option, none, some, List, [], ◌∷◌, ℕ, ◌==◌, ◌&&◌, ◌||◌,
  if◌then◌else◌, pos,
}
use shedpilot.Common.Dict.{lookup, insert, is_some}
use shedpilot.Common.Float.{Float}
use shedpilot.Api.{
  AdaptivePolicy, TriggerConfig, ScheduleConfig, has_admission_control, has_adaptive_concurrency,
  has_streaming_protection, has_triggers, is_human_override_enabled, annotation_previous_profile,
}
use shedpilot.Trigger.Types.{Signals, State, Decision}
use shedpilot.Trigger.Evaluate.{evaluate}

-- The reasons for which a policy is degraded.
pub data Invalid : Type 0 where
  no_active_filters invalid_active_profile : Invalid
  invalid_trigger : TriggerConfig → Invalid
  invalid_schedule : ScheduleConfig → Invalid

abbrev pub has_profile : AdaptivePolicy → String → Bool
has_profile policy name = is_some (lookup name policy.spec.profiles)

unfoldable pub first_bad_trigger : AdaptivePolicy → List TriggerConfig → Option Invalid
first_bad_trigger policy [] = none
first_bad_trigger policy (t ∷ ts) =
    let later = first_bad_trigger policy ts in
    if has_profile policy t.switch_to then later else some (invalid_trigger t)

unfoldable pub first_bad_schedule : AdaptivePolicy → List ScheduleConfig → Option Invalid
first_bad_schedule policy [] = none
first_bad_schedule policy (s ∷ ss) =
    let later = first_bad_schedule policy ss in
    if has_profile policy s.switch_to then later else some (invalid_schedule s)

abbrev pub no_filters : AdaptivePolicy → Bool
no_filters policy =
    not (has_admission_control policy)
    && not (has_adaptive_concurrency policy)
    && not (has_streaming_protection policy)

abbrev pub first_of : Option Invalid → Option Invalid → Option Invalid
first_of none later = later
first_of (some i) later = some i

-- none is the source's true; Messages has the texts of the condition.
unfoldable pub validate_policy : AdaptivePolicy → Option Invalid
unfolding first_bad_trigger first_bad_schedule
validate_policy policy =
    if no_filters policy
    then some no_active_filters
    else if not (policy.spec.active_profile == "")
        && not (has_profile policy policy.spec.active_profile)
    then some invalid_active_profile
    else first_of (first_bad_trigger policy policy.spec.triggers)
        (first_bad_schedule policy policy.spec.schedules)

abbrev frozen : String → Decision
frozen reason = record {
  should_switch = false;
  target_profile = "";
  trigger_name = "";
  reason = reason;
  consecutive_bad_samples = pos 0;
}

pub record Switched : Type 0 where
  pub decision : Decision
  pub switched : Bool
  pub failed : Bool
  pub policy : AdaptivePolicy
  pub state : State

-- The merge patch of the active profile, as the server applies it.
abbrev pub with_profile : String → AdaptivePolicy → AdaptivePolicy
with_profile target policy = record policy {
  annotations = insert annotation_previous_profile policy.spec.active_profile policy.annotations;
  spec = record policy.spec { active_profile = target };
}

-- The patch of the decision; `patched` is whether the server took it.
unfoldable pub apply_decision : Bool → Decision → AdaptivePolicy → State → Switched
apply_decision patched d policy state =
    let moved = d.should_switch && patched in
    record {
      decision = d;
      switched = moved;
      failed = d.should_switch && not patched;
      policy = if moved then with_profile d.target_profile policy else policy;
      state = state;
    }

-- No decision is taken: nothing changes.
abbrev kept : String → AdaptivePolicy → State → Switched
kept reason policy state = record {
  decision = frozen reason;
  switched = false;
  failed = false;
  policy = policy;
  state = state;
}

module _ {F : Type 0} ⦃fl : Float F⦄ where
  unfoldable pub evaluate_and_switch : Bool → ℕ → AdaptivePolicy → Signals F → State → Switched
  unfolding apply_decision
  evaluate_and_switch patched now policy signals state =
      let (d, state') = evaluate now policy signals state in
      if is_human_override_enabled policy
      then kept "human-override active — automatic switching frozen" policy state
      else if not (has_triggers policy)
      then kept "no triggers configured" policy state
      else apply_decision patched d policy state'
