-- ===== src/Trigger/Types.antt =====
-- internal/trigger/evaluator.go: the data of the evaluator. Times are nanoseconds.
use shedpilot.Common.{String, Bool, ℕ, [], ℤ, pos}
use shedpilot.Common.Dict.{Dict}

pub record Signals (F : Type 0) : Type 0 where
  pub success_rate : F
  pub service_latency_ms : F
  pub total_latency_ms : F
  pub rps : F
  pub sample_count : ℤ
  pub collected_at : ℕ
  pub shed_rejected_rps : F

pub record Decision : Type 0 where
  pub should_switch : Bool
  pub target_profile : String
  pub trigger_name : String
  pub reason : String
  pub consecutive_bad_samples : ℤ

-- The maps are keyed by trigger name; counters are int32.
pub record State : Type 0 where
  pub consecutive_bad_samples : Dict ℤ
  pub last_trigger_fire_time : Dict ℕ
  pub consecutive_filter_inactive : ℤ

abbrev pub new_state : State
new_state = record {
  consecutive_bad_samples = [];
  last_trigger_fire_time = [];
  consecutive_filter_inactive = pos 0;
}
