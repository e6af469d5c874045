-- ===== src/Api/Spec.antt =====
-- AdaptivePolicySpec: the desired state of a policy.
use shedpilot.Common.{String, List, Option, Bool}
use shedpilot.Common.Dict.{Dict}
use shedpilot.Api.Filters.{
  MeshBackend, MeshMode, AdaptiveConcurrencyConfig, AdmissionControlConfig,
  StreamingProtectionConfig, ProfileConfig,
}
use shedpilot.Api.Triggers.{TriggerConfig, ScheduleConfig, SignalConfig, DetectionConfig}

pub record AdaptivePolicySpec : Type 0 where
  pub selector : Dict String
  pub mesh_backend : MeshBackend
  pub mesh_mode : MeshMode
  pub dry_run : Bool
  pub adaptive_concurrency : Option AdaptiveConcurrencyConfig
  pub admission_control : Option AdmissionControlConfig
  pub streaming_protection : Option StreamingProtectionConfig
  pub profiles : Dict ProfileConfig
  pub active_profile : String
  pub triggers : List TriggerConfig
  pub schedules : List ScheduleConfig
  pub signal_config : Option SignalConfig
  pub detection : Option DetectionConfig
