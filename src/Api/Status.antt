-- ===== src/Api/Status.antt =====
-- AdaptivePolicyStatus: what the controller reports, with the conditions of Kubernetes.
use shedpilot.Common.{String, List, Option, Bool, ℕ, ℤ}

-- metav1.Condition. Times are nanoseconds.
pub record Condition : Type 0 where
  pub kind : String
  pub status : String
  pub observed_generation : ℤ
  pub last_transition_time : ℕ
  pub reason : String
  pub message : String

abbrev pub condition_ready : String
condition_ready = "Ready"

abbrev pub condition_degraded : String
condition_degraded = "Degraded"

abbrev pub condition_signal_collection_available : String
condition_signal_collection_available = "SignalCollectionAvailable"

abbrev pub condition_filter_effective : String
condition_filter_effective = "FilterEffective"

pub record DecisionRecord : Type 0 where
  pub timestamp : ℕ
  pub trigger_name : String
  pub schedule_name : String
  pub profile_before : String
  pub profile_after : String
  pub signal_values : String
  pub delivery_method : String
  pub delivery_latency_ms : ℤ
  pub outcome : String
  pub outcome_detail : String

pub record ManagedResource : Type 0 where
  pub api_version : String
  pub kind : String
  pub name : String
  pub namespace : String

pub record AdaptivePolicyStatus : Type 0 where
  pub conditions : List Condition
  pub observed_generation : ℤ
  pub detected_backend : String
  pub active_profile : String
  pub profile_active_since : Option ℕ
  pub active_filters : List String
  pub managed_resources : List ManagedResource
  pub shed_rate_now : String
  pub would_have_shed_rate : String
  pub last_decision : Option DecisionRecord
  pub decision_history : List DecisionRecord
  pub next_trigger_evaluation : Option ℕ
  pub consecutive_bad_samples : ℤ
  pub scalability_warning : Bool
  pub scalability_warning_detail : String
  pub last_reconcile_time : Option ℕ
  pub rtds_connected : Bool
