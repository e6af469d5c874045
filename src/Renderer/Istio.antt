-- ===== src/Renderer/Istio.antt =====
-- internal/renderer/istio.go: the EnvoyFilters and the DestinationRule of a policy.
pub mod Configs
pub mod Render
pub mod Runtime
pub mod Refs
use shedpilot.Common.{
  String, pos, Bool, true, Option, none, some, List, [], ◌∷◌, ◌++◌, map, ◌<>◌, ◌||◌, ◌&&◌,
  if◌then◌else◌, is_nonempty,
}
use shedpilot.Common.Dict.{Dict, insert}
use shedpilot.Common.Float.{Float}
use shedpilot.Api.{
  AdaptivePolicy, AdmissionControlConfig, AdaptiveConcurrencyConfig, StreamingProtectionConfig,
  ManagedResource, has_admission_control, has_adaptive_concurrency, has_streaming_protection,
  effective_mesh_mode,
}
use shedpilot.Rtds.Client.{RuntimeValue}
use shedpilot.Renderer.Json.{Json, text, integer, flag, object, array, texts}
use shedpilot.Renderer.Result.{
  Resource, RenderResult, owner_references, resource_labels, selector_to_host,
}
use shedpilot.Renderer.Istio.Configs.{
  type_url_admission_control_per_route, type_url_adaptive_concurrency_per_route, admission_config,
  admission_layer, concurrency_config, concurrency_layer, filter_admission_control,
  filter_adaptive_concurrency, filter_http_conn_manager, bootstrap_patch,
}

abbrev pub networking_api_version : String
networking_api_version = "networking.istio.io/v1alpha3"

-- Every mesh mode has the same context.
pub listener_context : String → String
listener_context mode = "SIDECAR_INBOUND"

unfoldable pub admission_control_name : AdaptivePolicy → String
admission_control_name policy = policy.name <> "-admission-control"

unfoldable pub adaptive_concurrency_name : AdaptivePolicy → String
adaptive_concurrency_name policy = policy.name <> "-adaptive-concurrency"

unfoldable pub streaming_protection_name : AdaptivePolicy → String
streaming_protection_name policy = policy.name <> "-streaming"

unfoldable pub stats_flush_name : AdaptivePolicy → String
stats_flush_name policy = policy.name <> "-stats-flush"

unfoldable pub skip_paths_name : AdaptivePolicy → String
skip_paths_name policy = policy.name <> "-skip-paths"

module _ {F : Type 0} ⦃fl : Float F⦄ where
  -- An object with the metadata that every renderer function sets.
  abbrev new_object : AdaptivePolicy → String → String → Dict (Json F) → Resource F
  new_object policy kind name spec = record {
    api_version = networking_api_version;
    kind = kind;
    name = name;
    namespace = policy.namespace;
    labels = resource_labels policy;
    owner_references = owner_references policy;
    spec = spec;
  }

  abbrev envoy_filter : AdaptivePolicy → String → List (Json F) → Resource F
  envoy_filter policy name patches = new_object policy "EnvoyFilter" name (
      ("workloadSelector", object (("labels", object (texts policy.spec.selector)) ∷ []))
      ∷ ("configPatches", array patches)
      ∷ [])

  unfoldable pub build_envoy_filter :
      AdaptivePolicy → String → String → String → Json F → Resource F
  build_envoy_filter policy name context filter_name typed_config = envoy_filter policy name (
      object (
        ("applyTo", text "HTTP_FILTER")
        ∷ (
          "match",
          object (
              ("context", text context)
              ∷ (
                "listener",
                object (
                    (
                      "filterChain",
                      object
                          (("filter", object (("name", text filter_http_conn_manager) ∷ [])) ∷ []),
                    )
                    ∷ []),
              )
              ∷ []),
        )
        ∷ (
          "patch",
          object (
              ("operation", text "INSERT_BEFORE")
              ∷ ("value", object (("name", text filter_name) ∷ ("typed_config", typed_config) ∷ []))
              ∷ []),
        )
        ∷ [])
      ∷ [])

  unfoldable pub render_stats_flush : AdaptivePolicy → Resource F
  render_stats_flush policy = envoy_filter policy (stats_flush_name policy) (
      object (
        ("applyTo", text "BOOTSTRAP")
        ∷ (
          "patch",
          object (
              ("operation", text "MERGE")
              ∷ ("value", object (insert "stats_flush_on_admin" (flag true) bootstrap_patch))
              ∷ []),
        )
        ∷ [])
      ∷ [])

  -- The patch of one path that the filters skip.
  abbrev pub skip_patch : String → String → Json F
  skip_patch context path = object (
      ("applyTo", text "HTTP_ROUTE")
      ∷ ("match", object (("context", text context) ∷ []))
      ∷ (
        "patch",
        object (
            ("operation", text "INSERT_FIRST")
            ∷ (
              "value",
              object (
                  ("match", object (("prefix", text path) ∷ []))
                  ∷ ("direct_response", object (("status", integer (pos 200)) ∷ []))
                  ∷ (
                    "typed_per_filter_config",
                    object (
                        (
                          filter_admission_control,
                          object (
                              ("@type", text type_url_admission_control_per_route)
                              ∷ ("disabled", flag true)
                              ∷ []),
                        )
                        ∷ (
                          filter_adaptive_concurrency,
                          object (
                              ("@type", text type_url_adaptive_concurrency_per_route)
                              ∷ ("disabled", flag true)
                              ∷ []),
                        )
                        ∷ []),
                  )
                  ∷ []),
            )
            ∷ []),
      )
      ∷ [])

  unfoldable pub render_skip_paths : AdaptivePolicy → AdmissionControlConfig → String → Resource F
  render_skip_paths policy cfg context =
      envoy_filter policy (skip_paths_name policy) (map (skip_patch context) cfg.skip_paths)

  unfoldable pub render_streaming_protection :
      AdaptivePolicy → StreamingProtectionConfig → Resource F
  render_streaming_protection policy cfg =
      new_object policy "DestinationRule" (streaming_protection_name policy) (
        ("host", text (selector_to_host policy.spec.selector))
        ∷ (
          "trafficPolicy",
          object (
              (
                "connectionPool",
                object (
                    (
                      "http",
                      object (
                          ("http2MaxRequests", integer cfg.max_concurrent_streams)
                          ∷ ("http1MaxPendingRequests", integer cfg.max_pending_requests)
                          ∷ ("idleTimeout", text (fl.decimal cfg.stream_timeout_seconds <> "s"))
                          ∷ []),
                    )
                    ∷ []),
              )
              ∷ []),
        )
        ∷ [])
