-- ===== src/Renderer/Cilium.antt =====
-- internal/renderer/cilium.go: the CiliumEnvoyConfig of a policy.
pub mod Agreement
use shedpilot.Common.{
  String, ℤ, Bool, not, false, Option, none, some, pos, List, [], ◌∷◌, ◌++◌, map, ◌<>◌, ltb_ℤ, any,
  if◌then◌else◌,
}
use shedpilot.Common.Dict.{Dict, insert}
use shedpilot.Common.Float.{Float}
use shedpilot.Api.{
  AdaptivePolicy, AdmissionControlConfig, AdaptiveConcurrencyConfig, is_dry_run,
  has_admission_control, has_adaptive_concurrency, effective_success_rate_threshold,
  effective_shedding_speed, effective_success_rate_window, effective_latency_percentile,
}
use shedpilot.Rtds.Client.{RuntimeValue}
use shedpilot.Renderer.Json.{Json, text, integer, flag, number, object, array}
use shedpilot.Renderer.Result.{
  Resource, RenderResult, when_some, owner_references, resource_labels, selector_to_host,
  must_parse_float, envoy_value, success_ranges, range_json,
}
use shedpilot.Renderer.Istio.Configs.{
  only, runtime, type_url_admission_control, type_url_adaptive_concurrency, key_admission_enabled,
  key_admission_threshold, key_admission_aggression, key_concurrency_enabled,
  filter_http_conn_manager,
}

abbrev cilium_api_version : String
cilium_api_version = "cilium.io/v2alpha1"

abbrev cilium_envoy_config_kind : String
cilium_envoy_config_kind = "CiliumEnvoyConfig"

pub cilium_envoy_config_name : AdaptivePolicy → String
cilium_envoy_config_name policy = "shedpilot-" <> policy.name

-- The numbers of ready pods of the daemon sets that listing cilium-envoy found.
unfoldable pub cilium_detects : Option (List ℤ) → Bool
cilium_detects none = false
cilium_detects (some numbers) = any (λ n. ltb_ℤ (pos 0) n) numbers

abbrev pub cilium_rtds_supported : Bool
cilium_rtds_supported = false

-- The filters that a policy has so far: their protos, their names and their runtime layers.
pub record Filters (F : Type 0) : Type 0 where
  pub protos : List (Json F)
  pub names : List String
  pub layers : Dict (Dict (RuntimeValue F))

module _ {F : Type 0} ⦃fl : Float F⦄ where
  -- buildAdmissionControlResource: the proto, and the runtime layer
  unfoldable pub admission_proto : AdaptivePolicy → AdmissionControlConfig → Json F
  unfolding must_parse_float
  admission_proto policy cfg =
      let criteria = object (
        (
          "http_criteria",
          only "http_success_status" (array (map range_json (success_ranges cfg.success_codes))),
        )
        ∷ ("grpc_criteria", only "grpc_success_status" (array (integer (pos 0) ∷ [])))
        ∷ []) in
      let share =
        fl.div (must_parse_float (effective_success_rate_threshold policy)) (fl.constant 100 0) in
      let speed = must_parse_float (effective_shedding_speed policy) in
      object (
        ("@type", text type_url_admission_control)
        ∷ ("enabled", runtime (flag (not (is_dry_run policy))) key_admission_enabled)
        ∷ ("sampling_window", text (effective_success_rate_window policy))
        ∷ ("sr_threshold", runtime (only "value" (number share)) key_admission_threshold)
        ∷ ("aggression", runtime (number speed) key_admission_aggression)
        ∷ (
          "rps_threshold",
          runtime (integer cfg.min_requests_per_second) "admission_control.rps_threshold",
        )
        ∷ (
          "max_rejection_probability",
          only "default_value" (only "value" (number (must_parse_float cfg.max_rejection_percent))),
        )
        ∷ ("success_criteria", criteria)
        ∷ [])

  unfoldable pub admission_values : AdaptivePolicy → Dict (RuntimeValue F)
  admission_values policy =
      let share =
        fl.div (must_parse_float (effective_success_rate_threshold policy)) (fl.constant 100 0) in
      (key_admission_enabled, RuntimeValue.flag (not (is_dry_run policy)))
      ∷ (key_admission_threshold, RuntimeValue.number share)
      ∷ (
        key_admission_aggression,
        RuntimeValue.number (must_parse_float (effective_shedding_speed policy)),
      )
      ∷ []

  -- buildAdaptiveConcurrencyResource: the proto, and the runtime layer
  unfoldable pub concurrency_proto : AdaptivePolicy → AdaptiveConcurrencyConfig → Json F
  concurrency_proto policy cfg =
      let interval : String × Json F =
        ("concurrency_update_interval", text cfg.concurrency_adjust_interval) in
      let limited : String × Json F = ("max_concurrency_limit", integer cfg.concurrency_limit) in
      let limit_params =
        if ltb_ℤ (pos 0) cfg.concurrency_limit then interval ∷ limited ∷ [] else interval ∷ [] in
      let percentile = number (envoy_value (effective_latency_percentile policy)) in
      let jitter = number (fl.of_int cfg.measurement_jitter) in
      let calc_params = object (
        ("interval", text cfg.latency_baseline_interval)
        ∷ ("request_count", integer cfg.latency_baseline_sample_size)
        ∷ ("jitter", only "value" jitter)
        ∷ []) in
      object (
        ("@type", text type_url_adaptive_concurrency)
        ∷ (
          "gradient_controller_config",
          object (
              ("sample_aggregate_percentile", only "value" percentile)
              ∷ ("concurrency_limit_params", object limit_params)
              ∷ ("min_rtt_calc_params", calc_params)
              ∷ []),
        )
        ∷ ("enabled", runtime (flag (not (is_dry_run policy))) key_concurrency_enabled)
        ∷ [])

  unfoldable pub concurrency_values : AdaptivePolicy → Dict (RuntimeValue F)
  concurrency_values policy =
      (key_concurrency_enabled, RuntimeValue.flag (not (is_dry_run policy))) ∷ []

  -- The filter chain ends with the router.
  unfoldable pub build_cilium_envoy_config : AdaptivePolicy → List (Json F) → Resource F
  build_cilium_envoy_config policy filters =
      let service = object (
        ("name", text (selector_to_host policy.spec.selector))
        ∷ ("namespace", text policy.namespace)
        ∷ []) in
      let router = object (
        ("name", text "envoy.filters.http.router")
        ∷ (
          "typed_config",
          only "@type" (text "type.googleapis.com/envoy.extensions.filters.http.router.v3.Router"),
        )
        ∷ []) in
      let manager_config = object (
        (
          "@type",
          text
              "type.googleapis.com/envoy.extensions.filters.network.http_connection_manager.v3.HttpConnectionManager",
        )
        ∷ ("stat_prefix", text ("shedpilot_" <> policy.name))
        ∷ ("http_filters", array (filters ++ (router ∷ [])))
        ∷ []) in
      let manager =
        object (("name", text filter_http_conn_manager) ∷ ("typed_config", manager_config) ∷ []) in
      let listener = object (
        ("@type", text "type.googleapis.com/envoy.config.listener.v3.Listener")
        ∷ ("name", text ("shedpilot-" <> policy.name))
        ∷ ("filter_chains", array (only "filters" (array (manager ∷ [])) ∷ []))
        ∷ []) in
      record {
        api_version = cilium_api_version;
        kind = cilium_envoy_config_kind;
        name = cilium_envoy_config_name policy;
        namespace = policy.namespace;
        labels = resource_labels policy;
        owner_references = owner_references policy;
        spec = ("services", array (service ∷ [])) ∷ ("resources", array (listener ∷ [])) ∷ [];
      }

  unfoldable pub with_filter :
      Json F → String → String → Dict (RuntimeValue F) → Filters F → Filters F
  with_filter proto name layer values fs = record {
    protos = fs.protos ++ (proto ∷ []);
    names = fs.names ++ (name ∷ []);
    layers = insert layer values fs.layers;
  }

  unfoldable pub add_admission : AdaptivePolicy → Filters F → Filters F
  unfolding with_filter
  add_admission policy fs = when_some policy.spec.admission_control fs (λ cfg.
      if has_admission_control policy
      then with_filter (admission_proto policy cfg) "admission-control"
          ("shedpilot-" <> policy.name <> "-admission-control") (admission_values policy) fs
      else fs)

  unfoldable pub add_concurrency : AdaptivePolicy → Filters F → Filters F
  unfolding with_filter
  add_concurrency policy fs = when_some policy.spec.adaptive_concurrency fs (λ cfg.
      if has_adaptive_concurrency policy
      then with_filter (concurrency_proto policy cfg) "adaptive-concurrency"
          ("shedpilot-" <> policy.name <> "-adaptive-concurrency") (concurrency_values policy) fs
      else fs)

  -- What Render makes of the filters: without any, nothing but the (empty) layers.
  unfoldable pub config_of : AdaptivePolicy → Filters F → List (Json F) → RenderResult F
  unfolding build_cilium_envoy_config
  config_of policy fs [] = record {
    resources = [];
    managed_resource_refs = [];
    active_filters = [];
    rtds_layers = fs.layers;
  }
  config_of policy fs (proto ∷ protos) = record {
    resources = build_cilium_envoy_config policy (proto ∷ protos) ∷ [];
    managed_resource_refs =
        record {
          api_version = cilium_api_version;
          kind = cilium_envoy_config_kind;
          name = cilium_envoy_config_name policy;
          namespace = policy.namespace;
        }
        ∷ [];
    active_filters = fs.names;
    rtds_layers = fs.layers;
  }

  unfoldable pub render : AdaptivePolicy → RenderResult F
  unfolding add_admission add_concurrency config_of
  render policy =
      let fs =
        add_concurrency policy
          (add_admission policy (record { protos = []; names = []; layers = [] })) in
      config_of policy fs fs.protos
