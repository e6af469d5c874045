-- ===== src/Tests/Renderer.antt =====
-- The renderers' theorems at a policy with every filter, in a dry run.
use shedpilot.Common.{◌≡◌, true, some, [], ◌∷◌, ℤ, pos}
use shedpilot.Api.{
  AdaptivePolicy, AdmissionControlConfig, AdaptiveConcurrencyConfig, StreamingProtectionConfig,
}
use shedpilot.Renderer.Istio.Render
use shedpilot.Renderer.Istio.Runtime.{FlagsFollow, render-FlagsFollow}
use shedpilot.Renderer.Cilium
use shedpilot.Renderer.Cilium.{
  admission_proto, admission_values, concurrency_proto, concurrency_values,
}
use shedpilot.Renderer.Cilium.Agreement.{layers-render}
use shedpilot.Renderer.Detect.{Cluster, Justified, detect_and_build, detect_and_build-Justified}
use shedpilot.Tests.Thousandths.{thousandths}
use shedpilot.Tests.Trigger.{policy, spec}

abbrev admission : AdmissionControlConfig
admission = record {
  enabled = true;
  success_rate_window = "30s";
  success_rate_threshold = "95.0";
  shedding_speed = "1.5";
  min_requests_per_second = pos 5;
  max_rejection_percent = "80.0";
  success_codes = [];
  skip_paths = "/healthz" ∷ [];
}

abbrev concurrency : AdaptiveConcurrencyConfig
concurrency = record {
  enabled = true;
  latency_percentile = "p90";
  latency_baseline_interval = "60s";
  latency_baseline_sample_size = pos 50;
  concurrency_adjust_interval = "0.1s";
  max_load_increase = "";
  concurrency_limit = pos 1000;
  measurement_jitter = pos 10;
}

abbrev streams : StreamingProtectionConfig
streams = record {
  enabled = true;
  max_concurrent_streams = pos 100;
  stream_timeout_seconds = pos 300;
  max_pending_requests = pos 50;
}

abbrev pub guarded : AdaptivePolicy
guarded = record policy {
  spec = record spec {
    dry_run = true;
    admission_control = some admission;
    adaptive_concurrency = some concurrency;
    streaming_protection = some streams;
  };
}

render-FlagsFollow_example : FlagsFollow guarded (Render.render {F = ℤ} guarded)
render-FlagsFollow_example = render-FlagsFollow guarded

layers-render_example :
    (Render.render {F = ℤ} guarded).rtds_layers ≡ (Cilium.render guarded).rtds_layers
layers-render_example = layers-render guarded

abbrev two_meshes : Cluster
two_meshes = record {
  istiod_phases = some ("Pending" ∷ "Running" ∷ []);
  cilium_ready = some (pos 3 ∷ []);
}

detect_and_build-Justified_example :
    Justified two_meshes guarded (detect_and_build two_meshes guarded)
detect_and_build-Justified_example = detect_and_build-Justified two_meshes guarded
