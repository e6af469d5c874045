-- ===== src/Api/Policy.antt =====
-- AdaptivePolicy and its predicate methods.
use shedpilot.Common.{
  String, Option, none, some, Bool, false, not, ℤ, is_nonempty, ◌==◌, if◌then◌else◌,
}
use shedpilot.Common.Dict.{Dict, lookup}
use shedpilot.Api.Filters.{
  MeshBackend, MeshMode, Percentile, ProfileConfig, AdmissionControlOverride,
  AdmissionControlConfig, mesh_backend_auto, mesh_mode_sidecar, percentile_p50,
}
use shedpilot.Api.Spec.{AdaptivePolicySpec}
use shedpilot.Api.Status.{AdaptivePolicyStatus}

-- Of the object's metadata the program reads these fields.
pub record AdaptivePolicy : Type 0 where
  pub name : String
  pub namespace : String
  pub uid : String
  pub generation : ℤ
  pub annotations : Dict String
  pub spec : AdaptivePolicySpec
  pub status : AdaptivePolicyStatus

abbrev pub annotation_human_override : String
annotation_human_override = "shedpilot.io/human-override"

abbrev pub annotation_previous_profile : String
annotation_previous_profile = "shedpilot.io/previous-profile"

-- The text at a key of a map of texts, "" where the key is missing.
abbrev text_of : Option String → String
text_of none = ""
text_of (some s) = s

unfoldable pub is_human_override_enabled : AdaptivePolicy → Bool
is_human_override_enabled ap = text_of (lookup annotation_human_override ap.annotations) == "true"

unfoldable pub is_dry_run : AdaptivePolicy → Bool
is_dry_run ap = ap.spec.dry_run

unfoldable pub has_adaptive_concurrency : AdaptivePolicy → Bool
has_adaptive_concurrency ap = elim ap.spec.adaptive_concurrency [
  | none ↦ false
  | some c ↦ c.enabled
]

unfoldable pub has_admission_control : AdaptivePolicy → Bool
has_admission_control ap = elim ap.spec.admission_control [ none ↦ false | some c ↦ c.enabled ]

unfoldable pub has_streaming_protection : AdaptivePolicy → Bool
has_streaming_protection ap = elim ap.spec.streaming_protection [
  | none ↦ false
  | some c ↦ c.enabled
]

pub has_profiles : AdaptivePolicy → Bool
has_profiles ap = is_nonempty ap.spec.profiles

unfoldable pub has_triggers : AdaptivePolicy → Bool
has_triggers ap = is_nonempty ap.spec.triggers

pub has_schedules : AdaptivePolicy → Bool
has_schedules ap = is_nonempty ap.spec.schedules

pub effective_mesh_mode : AdaptivePolicy → MeshMode
effective_mesh_mode ap = if ap.spec.mesh_mode == "" then mesh_mode_sidecar else ap.spec.mesh_mode

unfoldable pub effective_mesh_backend : AdaptivePolicy → MeshBackend
effective_mesh_backend ap =
    if ap.spec.mesh_backend == "" then mesh_backend_auto else ap.spec.mesh_backend

-- The profile and the Boolean of the source: none is a profile that was not found.
unfoldable pub active_profile_config : AdaptivePolicy → Option ProfileConfig
active_profile_config ap =
    if ap.spec.active_profile == "" then none else lookup ap.spec.active_profile ap.spec.profiles

-- The profile's override if it has one that is not "", then the baseline's value, then the default.
abbrev pub profile_admission : (AdmissionControlOverride → String) → Option ProfileConfig → String
profile_admission field none = ""
profile_admission field (some p) = elim p.admission_control [ none ↦ "" | some o ↦ field o ]

abbrev pub baseline_admission : (AdmissionControlConfig → String) → AdaptivePolicy → String
baseline_admission field ap = elim ap.spec.admission_control [ none ↦ "" | some c ↦ field c ]

abbrev pub first_set : String → String → String → String
first_set a b default = if not (a == "") then a else if not (b == "") then b else default

unfoldable pub effective_success_rate_threshold : AdaptivePolicy → String
unfolding active_profile_config
effective_success_rate_threshold ap =
    first_set (profile_admission (λ o. o.success_rate_threshold) (active_profile_config ap))
      (baseline_admission (λ c. c.success_rate_threshold) ap) "95.0"

pub effective_shedding_speed : AdaptivePolicy → String
unfolding active_profile_config
effective_shedding_speed ap =
    first_set (profile_admission (λ o. o.shedding_speed) (active_profile_config ap))
      (baseline_admission (λ c. c.shedding_speed) ap) "1.5"

pub effective_success_rate_window : AdaptivePolicy → String
unfolding active_profile_config
effective_success_rate_window ap =
    first_set (profile_admission (λ o. o.success_rate_window) (active_profile_config ap))
      (baseline_admission (λ c. c.success_rate_window) ap) "30s"

abbrev profile_percentile : Option ProfileConfig → Percentile
profile_percentile none = ""
profile_percentile (some p) = elim p.adaptive_concurrency [
  | none ↦ ""
  | some o ↦ o.latency_percentile
]

abbrev baseline_percentile : AdaptivePolicy → Percentile
baseline_percentile ap = elim ap.spec.adaptive_concurrency [
  | none ↦ ""
  | some c ↦ c.latency_percentile
]

pub effective_latency_percentile : AdaptivePolicy → Percentile
unfolding active_profile_config
effective_latency_percentile ap =
    first_set (profile_percentile (active_profile_config ap)) (baseline_percentile ap)
      percentile_p50
