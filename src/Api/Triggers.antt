-- ===== src/Api/Triggers.antt =====
-- Trigger conditions, triggers, schedules and the detection settings of the AdaptivePolicy resource.
use shedpilot.Common.{String, List, Option, ℤ}

-- The thresholds are decimal texts; "" means that the bound is absent.
pub record RateCondition : Type 0 where
  pub below : String
  pub above : String
  pub consecutive_samples : ℤ

pub record ThresholdCondition : Type 0 where
  pub above : String
  pub below : String
  pub consecutive_samples : ℤ

pub record TriggerCondition : Type 0 where
  pub success_rate : Option RateCondition
  pub service_latency_ms : Option ThresholdCondition
  pub rps_above : Option ℤ

pub record TriggerConfig : Type 0 where
  pub name : String
  pub when : TriggerCondition
  pub switch_to : String
  pub from_profiles : List String
  pub cooldown_seconds : ℤ

pub record ScheduleConfig : Type 0 where
  pub name : String
  pub cron : String
  pub switch_to : String
  pub from_profiles : List String

pub record SignalConfig : Type 0 where
  pub metrics_endpoint : String
  pub evaluation_interval_seconds : ℤ
  pub capacity_warning_percent : ℤ
  pub capacity_warning_window_days : ℤ

pub record DetectionConfig : Type 0 where
  pub poll_interval_ms : ℤ
  pub consecutive_breaches : ℤ
  pub consecutive_recoveries : ℤ
