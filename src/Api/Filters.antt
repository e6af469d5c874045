-- ===== src/Api/Filters.antt =====
-- The filter configurations and the profile overrides of the AdaptivePolicy resource.
use shedpilot.Common.{String, List, Option, Bool, ℤ}

-- `type MeshBackend string`: any text is a value of the Go type.
abbrev pub MeshBackend : Type 0
MeshBackend = String

abbrev pub mesh_backend_auto : MeshBackend
mesh_backend_auto = "auto"

abbrev pub mesh_backend_istio : MeshBackend
mesh_backend_istio = "istio"

abbrev pub mesh_backend_cilium : MeshBackend
mesh_backend_cilium = "cilium"

-- `type MeshMode string`
abbrev pub MeshMode : Type 0
MeshMode = String

abbrev pub mesh_mode_sidecar : MeshMode
mesh_mode_sidecar = "sidecar"

abbrev pub mesh_mode_ambient : MeshMode
mesh_mode_ambient = "ambient"

-- `type Percentile string`
abbrev pub Percentile : Type 0
Percentile = String

abbrev pub percentile_p50 : Percentile
percentile_p50 = "p50"

abbrev pub percentile_p75 : Percentile
percentile_p75 = "p75"

abbrev pub percentile_p90 : Percentile
percentile_p90 = "p90"

abbrev pub percentile_p99 : Percentile
percentile_p99 = "p99"

pub record AdaptiveConcurrencyConfig : Type 0 where
  pub enabled : Bool
  pub latency_percentile : Percentile
  pub latency_baseline_interval : String
  pub latency_baseline_sample_size : ℤ
  pub concurrency_adjust_interval : String
  pub max_load_increase : String
  pub concurrency_limit : ℤ
  pub measurement_jitter : ℤ

-- Both ends are int32.
pub record HttpStatusRange : Type 0 where
  pub start : ℤ
  pub end : ℤ

pub record AdmissionControlConfig : Type 0 where
  pub enabled : Bool
  pub success_rate_window : String
  pub success_rate_threshold : String
  pub shedding_speed : String
  pub min_requests_per_second : ℤ
  pub max_rejection_percent : String
  pub success_codes : List HttpStatusRange
  pub skip_paths : List String

pub record StreamingProtectionConfig : Type 0 where
  pub enabled : Bool
  pub max_concurrent_streams : ℤ
  pub stream_timeout_seconds : ℤ
  pub max_pending_requests : ℤ

pub record AdmissionControlOverride : Type 0 where
  pub success_rate_threshold : String
  pub shedding_speed : String
  pub success_rate_window : String

pub record AdaptiveConcurrencyOverride : Type 0 where
  pub latency_percentile : Percentile

-- A pointer that may be nil is an Option.
pub record ProfileConfig : Type 0 where
  pub admission_control : Option AdmissionControlOverride
  pub adaptive_concurrency : Option AdaptiveConcurrencyOverride
