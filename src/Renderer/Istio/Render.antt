-- ===== src/Renderer/Istio/Render.antt =====
-- internal/renderer/istio.go: Render, filter by filter, and Detect.
use shedpilot.Common.{
  String, Bool, true, false, Option, none, some, List, [], ◌∷◌, ◌++◌, ◌<>◌, ◌||◌, ◌&&◌, ◌==◌,
  if◌then◌else◌, is_nonempty, any,
}
use shedpilot.Common.Dict.{Dict, insert}
use shedpilot.Common.Float.{Float}
use shedpilot.Api.{
  AdaptivePolicy, ManagedResource, has_admission_control, has_adaptive_concurrency,
  has_streaming_protection, effective_mesh_mode,
}
use shedpilot.Rtds.Client.{RuntimeValue}
use shedpilot.Renderer.Result.{Resource, RenderResult, when_some}
use shedpilot.Renderer.Istio.{
  networking_api_version, listener_context, admission_control_name, adaptive_concurrency_name,
  streaming_protection_name, stats_flush_name, skip_paths_name, build_envoy_filter,
  render_stats_flush, render_skip_paths, render_streaming_protection,
}
use shedpilot.Renderer.Istio.Configs.{
  admission_config, admission_layer, concurrency_config, concurrency_layer,
  filter_admission_control, filter_adaptive_concurrency,
}

-- The phases of the pods that listing istiod found; an error of the listing is no pod.
unfoldable pub istio_detects : Option (List String) → Bool
istio_detects none = false
istio_detects (some phases) = any (λ phase. phase == "Running") phases

abbrev pub rtds_supported : Bool
rtds_supported = true

abbrev pub ref : AdaptivePolicy → String → String → ManagedResource
ref policy kind name = record {
  api_version = networking_api_version;
  kind = kind;
  name = name;
  namespace = policy.namespace;
}

module _ {F : Type 0} ⦃fl : Float F⦄ where
  abbrev pub nothing : RenderResult F
  nothing = record {
    resources = [];
    managed_resource_refs = [];
    active_filters = [];
    rtds_layers = [];
  }

  -- The appends of one filter to the result.
  unfoldable pub emit :
      Resource F
      → ManagedResource
      → List String
      → Dict (Dict (RuntimeValue F))
      → RenderResult F
      → RenderResult F
  emit resource managed filters layers r = record {
    resources = r.resources ++ (resource ∷ []);
    managed_resource_refs = r.managed_resource_refs ++ (managed ∷ []);
    active_filters = r.active_filters ++ filters;
    rtds_layers = layers;
  }

  unfoldable pub admission : AdaptivePolicy → RenderResult F → RenderResult F
  unfolding build_envoy_filter
  admission policy r = when_some policy.spec.admission_control r (λ cfg.
      if has_admission_control policy
      then emit
          (build_envoy_filter policy (admission_control_name policy)
            (listener_context (effective_mesh_mode policy)) filter_admission_control
            (admission_config policy cfg))
          (ref policy "EnvoyFilter" (admission_control_name policy)) ("admission-control" ∷ [])
          (insert ("shedpilot-" <> policy.name <> "-admission-control") (admission_layer policy)
            r.rtds_layers)
          r
      else r)

  unfoldable pub concurrency : AdaptivePolicy → RenderResult F → RenderResult F
  unfolding build_envoy_filter
  concurrency policy r = when_some policy.spec.adaptive_concurrency r (λ cfg.
      if has_adaptive_concurrency policy
      then emit
          (build_envoy_filter policy (adaptive_concurrency_name policy)
            (listener_context (effective_mesh_mode policy)) filter_adaptive_concurrency
            (concurrency_config policy cfg))
          (ref policy "EnvoyFilter" (adaptive_concurrency_name policy))
          ("adaptive-concurrency" ∷ [])
          (insert ("shedpilot-" <> policy.name <> "-adaptive-concurrency")
            (concurrency_layer policy) r.rtds_layers)
          r
      else r)

  unfoldable pub stats_flush : AdaptivePolicy → RenderResult F → RenderResult F
  unfolding render_stats_flush
  stats_flush policy r =
      if has_admission_control policy || has_adaptive_concurrency policy
      then emit (render_stats_flush policy) (ref policy "EnvoyFilter" (stats_flush_name policy)) []
          r.rtds_layers r
      else r

  unfoldable pub skip_paths : AdaptivePolicy → RenderResult F → RenderResult F
  unfolding render_skip_paths
  skip_paths policy r = when_some policy.spec.admission_control r (λ cfg.
      if has_admission_control policy && is_nonempty cfg.skip_paths
      then emit (render_skip_paths policy cfg (listener_context (effective_mesh_mode policy)))
          (ref policy "EnvoyFilter" (skip_paths_name policy)) [] r.rtds_layers r
      else r)

  unfoldable pub streaming : AdaptivePolicy → RenderResult F → RenderResult F
  unfolding render_streaming_protection
  streaming policy r = when_some policy.spec.streaming_protection r (λ cfg.
      if has_streaming_protection policy
      then emit (render_streaming_protection policy cfg)
          (ref policy "DestinationRule" (streaming_protection_name policy))
          ("streaming-protection" ∷ []) r.rtds_layers r
      else r)

  unfoldable pub render : AdaptivePolicy → RenderResult F
  unfolding admission concurrency stats_flush skip_paths streaming
  render policy =
      streaming policy
        (skip_paths policy (stats_flush policy (concurrency policy (admission policy nothing))))
