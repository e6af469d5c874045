-- ===== src/Tests/Controller.antt =====
-- The reconciler's theorems at concrete policies, conditions and calls.
use shedpilot.Common.{String, ◌≡◌, ◌↔◌, refl, true, none, inr, [], ◌∷◌}
use shedpilot.Common.Dict.{lookup}
use shedpilot.Api.{AdaptivePolicy, ProfileConfig, ManagedResource, has_admission_control}
use shedpilot.Trigger.Types.{new_state}
use shedpilot.Controller.Validate.{validate_policy, evaluate_and_switch}
use shedpilot.Controller.Validate.Sound.{Valid, validate_policy_iff}
use shedpilot.Controller.Validate.Switch.{evaluate_and_switch-Valid}
use shedpilot.Tests.Thousandths.{thousandths}
use shedpilot.Tests.Trigger.{poor}
use shedpilot.Tests.Renderer.{guarded}

abbrev empty_profile : ProfileConfig
empty_profile = record { admission_control = none; adaptive_concurrency = none }

abbrev pub complete : AdaptivePolicy
complete = record guarded {
  spec = record guarded.spec {
    profiles =
        ("normal", empty_profile) ∷ ("degraded", empty_profile) ∷ ("critical", empty_profile) ∷ [];
  };
}

pub complete-Valid : Valid complete
unfolding has_admission_control lookup
complete-Valid = record {
  filter = refl;
  active = inr refl;
  triggers = (refl, (refl, tt));
  schedules = tt;
}

validate_policy_iff_example : (validate_policy complete ≡ none) ↔ Valid complete
validate_policy_iff_example = validate_policy_iff complete

evaluate_and_switch-Valid_example :
    Valid (evaluate_and_switch true 5 complete poor new_state).policy
evaluate_and_switch-Valid_example =
    evaluate_and_switch-Valid true 5 complete poor new_state complete-Valid

abbrev pub envoy_filter : String → ManagedResource
envoy_filter name = record {
  api_version = "networking.istio.io/v1alpha3";
  kind = "EnvoyFilter";
  name = name;
  namespace = "production";
}
