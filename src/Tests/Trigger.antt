-- ===== src/Tests/Trigger.antt =====
-- The trigger theorems at a policy with two triggers.
use mathlib.Core.Bool.{false≢true}
use shedpilot.Common.{
  ◌≡◌, ◌↔◌, refl, true, false, none, some, [], ◌∷◌, ℕ, ◌≤◌, ℤ, pos, pos_part, inl, inr, eq_iff,
  String,
}
use shedpilot.Common.Dict.{lookup, insert}
use shedpilot.Api.{TriggerCondition, TriggerConfig, AdaptivePolicySpec, AdaptivePolicy}
use shedpilot.Trigger.Types.{Signals, new_state}
use shedpilot.Trigger.Condition.{condition_met, required_samples}
use shedpilot.Trigger.Condition.Conjunction.{SetsBound, Holds, condition_met_iff}
use shedpilot.Trigger.Evaluate.{count, evaluate, loop, step, skipped}
use shedpilot.Trigger.Evaluate.Ready.{ready}
use shedpilot.Trigger.Evaluate.Firing.{Outcome, first_ready, evaluate-Outcome, UniqueNames}
use shedpilot.Trigger.Evaluate.Counters.{count_after, count-evaluate}
use shedpilot.Trigger.Evaluate.Runs.{Input, Fires, Over}
use shedpilot.Trigger.Evaluate.Streak.{state_of, streak, fired-streak}
use shedpilot.Trigger.Evaluate.Cooldown.{state_after, cooldown_holds}
use shedpilot.Tests.Thousandths.{thousandths, read, parsed}

-- 1000 successes in 10,000: a tenth.
abbrev pub poor : Signals ℤ
poor = record {
  success_rate = pos 100;
  service_latency_ms = pos 0;
  total_latency_ms = pos 0;
  rps = pos 50000;
  sample_count = pos 10000;
  collected_at = 0;
  shed_rejected_rps = pos 0;
}

abbrev below : String → ℕ → TriggerCondition
below bound n = record {
  success_rate = some (record { below = bound; above = ""; consecutive_samples = pos n });
  service_latency_ms = none;
  rps_above = none;
}

abbrev pub degrade : TriggerConfig
degrade = record {
  name = "degrade";
  when = below "0.90" 2;
  switch_to = "degraded";
  from_profiles = [];
  cooldown_seconds = pos 60;
}

abbrev collapse : TriggerConfig
collapse = record {
  name = "collapse";
  when = below "0.5" 3;
  switch_to = "critical";
  from_profiles = [];
  cooldown_seconds = pos 60;
}

abbrev pub spec : AdaptivePolicySpec
spec = record {
  selector = ("app", "payments") ∷ [];
  mesh_backend = "auto";
  mesh_mode = "sidecar";
  dry_run = false;
  adaptive_concurrency = none;
  admission_control = none;
  streaming_protection = none;
  profiles = [];
  active_profile = "normal";
  triggers = degrade ∷ collapse ∷ [];
  schedules = [];
  signal_config = none;
  detection = none;
}

abbrev pub policy : AdaptivePolicy
policy = record {
  name = "payments";
  namespace = "production";
  uid = "1";
  generation = pos 1;
  annotations = [];
  spec = spec;
  status = record {
    conditions = [];
    observed_generation = pos 0;
    detected_backend = "";
    active_profile = "";
    profile_active_since = none;
    active_filters = [];
    managed_resources = [];
    shed_rate_now = "";
    would_have_shed_rate = "";
    last_decision = none;
    decision_history = [];
    next_trigger_evaluation = none;
    consecutive_bad_samples = pos 0;
    scalability_warning = false;
    scalability_warning_detail = "";
    last_reconcile_time = none;
    rtds_connected = false;
  };
}

pub unique : UniqueNames spec.triggers
unique = ((λ e. false≢true ((eq_iff "degrade" "collapse").1 e), tt), (tt, tt))

abbrev at_second : ℕ → Input ℤ
at_second n = record { at = n; policy = policy; signals = poor }

over : (n : ℕ) → Over spec.triggers (at_second n)
over n = (refl, refl, unique)

-- Opening this runs an evaluation.
unfoldable pub evaluator : Unit {0}
unfolding evaluate loop step skipped ready condition_met required_samples read parsed lookup insert
evaluator = tt

-- The second poor sample fires the first trigger.
second-Fires : Fires degrade (evaluate 7 policy poor (state_of (at_second 5 ∷ []))).0
unfolding evaluator
second-Fires = (refl, refl)

condition_met_iff_example :
    ((condition_met (below "0.90" 2) poor).0 ≡ true)
    ↔ (SetsBound (below "0.90" 2) × Holds poor (below "0.90" 2))
condition_met_iff_example = condition_met_iff poor (below "0.90" 2)

evaluate-Outcome_example :
    Outcome poor "normal" 7
      (state_of (at_second 5 ∷ []))
      (first_ready poor "normal" 7 spec.triggers (state_of (at_second 5 ∷ [])))
      (evaluate 7 policy poor (state_of (at_second 5 ∷ [])))
evaluate-Outcome_example = evaluate-Outcome 7 policy poor (state_of (at_second 5 ∷ [])) refl unique

count-evaluate_example :
    count (evaluate 5 policy poor new_state).1 "collapse"
    ≡ count_after poor "normal" 5 collapse spec.triggers new_state
count-evaluate_example =
    count-evaluate 5 policy poor new_state collapse refl unique (inr (inl refl))

fired-streak_example :
    pos_part (required_samples degrade.when)
    ≤ streak degrade spec.triggers (at_second 7 ∷ at_second 5 ∷ [])
fired-streak_example =
    fired-streak degrade spec.triggers (at_second 7) (at_second 5 ∷ []) (over 7, (over 5, tt))
      (inl refl) second-Fires

cooldown_holds_example :
    ¬ Fires degrade
      (evaluate 9 policy poor
        (state_after (evaluate 7 policy poor (state_of (at_second 5 ∷ []))).1 (at_second 8 ∷ []))).0
cooldown_holds_example =
    cooldown_holds degrade spec.triggers (at_second 7) (state_of (at_second 5 ∷ []))
      (at_second 8 ∷ []) (at_second 9) (over 7) (inl refl) second-Fires (over 9, (over 8, tt))
      (refl, (refl, tt))
