-- ===== src/Renderer/Istio/Configs.antt =====
-- internal/renderer/istio.go: the configurations of the two filters, and the runtime layers with which
-- a profile switch changes them; internal/rtds/client.go: BootstrapPatch.
use shedpilot.Common.{String, not, pos, [], ◌∷◌, map, ltb_ℤ, if◌then◌else◌}
use shedpilot.Common.Dict.{Dict}
use shedpilot.Common.Float.{Float}
use shedpilot.Api.{
  AdaptivePolicy, AdmissionControlConfig, AdaptiveConcurrencyConfig, is_dry_run,
  effective_success_rate_threshold, effective_shedding_speed, effective_success_rate_window,
  effective_latency_percentile,
}
use shedpilot.Rtds.Client.{RuntimeValue}
use shedpilot.Renderer.Json.{Json, text, integer, flag, number, object, array}
use shedpilot.Renderer.Result.{must_parse_float, envoy_value, success_ranges, range_json}

abbrev pub filter_admission_control : String
filter_admission_control = "envoy.filters.http.admission_control"

abbrev pub filter_adaptive_concurrency : String
filter_adaptive_concurrency = "envoy.filters.http.adaptive_concurrency"

abbrev pub filter_http_conn_manager : String
filter_http_conn_manager = "envoy.filters.network.http_connection_manager"

abbrev pub type_url_admission_control : String
type_url_admission_control =
    "type.googleapis.com/envoy.extensions.filters.http.admission_control.v3.AdmissionControl"

abbrev pub type_url_adaptive_concurrency : String
type_url_adaptive_concurrency =
    "type.googleapis.com/envoy.extensions.filters.http.adaptive_concurrency.v3.AdaptiveConcurrency"

abbrev pub type_url_admission_control_per_route : String
type_url_admission_control_per_route =
    "type.googleapis.com/envoy.extensions.filters.http.admission_control.v3.AdmissionControlPerRoute"

abbrev pub type_url_adaptive_concurrency_per_route : String
type_url_adaptive_concurrency_per_route =
    "type.googleapis.com/envoy.extensions.filters.http.adaptive_concurrency.v3.AdaptiveConcurrencyPerRoute"

abbrev pub key_admission_enabled : String
key_admission_enabled = "admission_control.enabled"

abbrev pub key_admission_threshold : String
key_admission_threshold = "admission_control.sr_threshold"

abbrev pub key_admission_aggression : String
key_admission_aggression = "admission_control.aggression"

abbrev pub key_concurrency_enabled : String
key_concurrency_enabled = "adaptive_concurrency.enabled"

abbrev rtds_service_host : String
rtds_service_host = "controller-manager-metrics-service.shedpilot-system.svc.cluster.local"

module _ {F : Type 0} where
  -- An object with one member.
  abbrev pub only : String → Json F → Json F
  only key x = object ((key, x) ∷ [])

  -- A value that the runtime key replaces.
  abbrev pub runtime : Json F → String → Json F
  runtime default key = object (("default_value", default) ∷ ("runtime_key", text key) ∷ [])

  -- rtds.BootstrapPatch at the host of the service
  pub bootstrap_patch : Dict (Json F)
  bootstrap_patch =
      let source = object (
        ("api_type", text "GRPC")
        ∷ ("transport_api_version", text "V3")
        ∷ (
          "grpc_services",
          array (only "envoy_grpc" (only "cluster_name" (text "shedpilot_rtds")) ∷ []),
        )
        ∷ []) in
      let layer = object (
        ("name", text "shedpilot-rtds")
        ∷ (
          "rtds_layer",
          object (
              ("name", text "shedpilot-runtime")
              ∷ ("rtds_config", only "api_config_source" source)
              ∷ []),
        )
        ∷ []) in
      let address =
        object (("address", text rtds_service_host) ∷ ("port_value", integer (pos 15050)) ∷ []) in
      let endpoint = only "endpoint" (only "address" (only "socket_address" address)) in
      let cluster = object (
        ("name", text "shedpilot_rtds")
        ∷ ("type", text "STRICT_DNS")
        ∷ ("connect_timeout", text "5s")
        ∷ ("http2_protocol_options", object [])
        ∷ (
          "load_assignment",
          object (
              ("cluster_name", text "shedpilot_rtds")
              ∷ ("endpoints", array (only "lb_endpoints" (array (endpoint ∷ [])) ∷ []))
              ∷ []),
        )
        ∷ []) in
      ("layered_runtime", only "layers" (array (layer ∷ [])))
      ∷ ("static_resources", only "clusters" (array (cluster ∷ [])))
      ∷ []

module _ {F : Type 0} ⦃fl : Float F⦄ where
  -- The typed_config of renderAdmissionControl.
  unfoldable pub admission_config : AdaptivePolicy → AdmissionControlConfig → Json F
  unfolding must_parse_float
  admission_config policy cfg =
      let criteria = object (
        (
          "http_criteria",
          only "http_success_status" (array (map range_json (success_ranges cfg.success_codes))),
        )
        ∷ ("grpc_criteria", only "grpc_success_status" (array (integer (pos 0) ∷ [])))
        ∷ []) in
      object (
        ("@type", text type_url_admission_control)
        ∷ ("enabled", runtime (flag (not (is_dry_run policy))) key_admission_enabled)
        ∷ ("sampling_window", text (effective_success_rate_window policy))
        ∷ (
          "sr_threshold",
          runtime
              (only "value" (number (must_parse_float (effective_success_rate_threshold policy))))
              key_admission_threshold,
        )
        ∷ (
          "aggression",
          runtime (number (must_parse_float (effective_shedding_speed policy)))
              key_admission_aggression,
        )
        ∷ (
          "rps_threshold",
          runtime (integer cfg.min_requests_per_second) "admission_control.rps_threshold",
        )
        ∷ (
          "max_rejection_probability",
          only "default_value" (only "value" (number (must_parse_float cfg.max_rejection_percent))),
        )
        ∷ ("success_criteria", criteria)
        ∷ [])

  -- The runtime layer of renderAdmissionControl: the threshold is a share, not a percentage.
  unfoldable pub admission_layer : AdaptivePolicy → Dict (RuntimeValue F)
  admission_layer policy =
      (key_admission_enabled, RuntimeValue.flag (not (is_dry_run policy)))
      ∷ (
        key_admission_threshold,
        RuntimeValue.number (
            fl.div (must_parse_float (effective_success_rate_threshold policy))
              (fl.constant 100 0)),
      )
      ∷ (
        key_admission_aggression,
        RuntimeValue.number (must_parse_float (effective_shedding_speed policy)),
      )
      ∷ []

  -- The typed_config of renderAdaptiveConcurrency.
  unfoldable pub concurrency_config : AdaptivePolicy → AdaptiveConcurrencyConfig → Json F
  concurrency_config policy cfg =
      let interval : String × Json F =
        ("concurrency_update_interval", text cfg.concurrency_adjust_interval) in
      let limited : String × Json F = ("max_concurrency_limit", integer cfg.concurrency_limit) in
      let limit_params =
        if ltb_ℤ (pos 0) cfg.concurrency_limit then interval ∷ limited ∷ [] else interval ∷ [] in
      let calc_params = object (
        ("interval", text cfg.latency_baseline_interval)
        ∷ ("request_count", integer cfg.latency_baseline_sample_size)
        ∷ ("jitter", only "value" (number (fl.of_int cfg.measurement_jitter)))
        ∷ []) in
      object (
        ("@type", text type_url_adaptive_concurrency)
        ∷ (
          "gradient_controller_config",
          object (
              (
                "sample_aggregate_percentile",
                only "value" (number (envoy_value (effective_latency_percentile policy))),
              )
              ∷ ("concurrency_limit_params", object limit_params)
              ∷ ("min_rtt_calc_params", calc_params)
              ∷ []),
        )
        ∷ ("enabled", runtime (flag (not (is_dry_run policy))) key_concurrency_enabled)
        ∷ [])

  unfoldable pub concurrency_layer : AdaptivePolicy → Dict (RuntimeValue F)
  concurrency_layer policy =
      (key_concurrency_enabled, RuntimeValue.flag (not (is_dry_run policy))) ∷ []
