-- ===== src/Renderer/Istio/Refs.antt =====
-- The references of the status and the resources that are applied.
use shedpilot.Common.{String, ap, ◌∙◌, ◌≡◌, refl, List, [], ◌∷◌, ◌++◌, map}
use shedpilot.Common.Dict.{Dict}
use shedpilot.Rtds.Client.{RuntimeValue}
use shedpilot.Common.Float.{Float}
use shedpilot.Api.{AdaptivePolicy, ManagedResource}
use shedpilot.Renderer.Result.{Resource, RenderResult, when_some-keeps, if-keeps}
use shedpilot.Renderer.Istio.Render.{
  emit, render, admission, concurrency, stats_flush, skip_paths, streaming,
}

module _ {F : Type 0} where
  abbrev pub ref_of : Resource F → ManagedResource
  ref_of r = record {
    api_version = r.api_version;
    kind = r.kind;
    name = r.name;
    namespace = r.namespace;
  }

  -- Each reference is that of the resource at its place.
  pub record RefsMatch (r : RenderResult F) : Type 0 where
    pub refs : map ref_of r.resources ≡ r.managed_resource_refs

  map-snoc :
      (x : Resource F) (xs : List (Resource F))
      → map ref_of (xs ++ (x ∷ [])) ≡ map ref_of xs ++ (ref_of x ∷ [])
  map-snoc x [] = refl
  map-snoc x (y ∷ ys) = ap (λ rest. ref_of y ∷ rest) (map-snoc x ys)

module _ {F : Type 0} ⦃fl : Float F⦄ where
  grown :
      (x : Resource F) (m : ManagedResource) (filters : List String)
      (layers : Dict (Dict (RuntimeValue F))) (r : RenderResult F)
      → ref_of x ≡ m
      → RefsMatch r
      → RefsMatch (emit x m filters layers r)
  unfolding emit
  grown x m filters layers r e h = record { refs = map-snoc x r.resources ∙ rw (e, h.refs) refl }

  admission-RefsMatch :
      (policy : AdaptivePolicy) (r : RenderResult F) → RefsMatch r → RefsMatch (admission policy r)
  unfolding admission
  admission-RefsMatch policy r h =
      when_some-keeps RefsMatch policy.spec.admission_control _ _ r h
        (λ cfg. grown _ _ _ _ r refl h)

  concurrency-RefsMatch :
      (policy : AdaptivePolicy) (r : RenderResult F)
      → RefsMatch r
      → RefsMatch (concurrency policy r)
  unfolding concurrency
  concurrency-RefsMatch policy r h =
      when_some-keeps RefsMatch policy.spec.adaptive_concurrency _ _ r h
        (λ cfg. grown _ _ _ _ r refl h)

  stats_flush-RefsMatch :
      (policy : AdaptivePolicy) (r : RenderResult F)
      → RefsMatch r
      → RefsMatch (stats_flush policy r)
  unfolding stats_flush
  stats_flush-RefsMatch policy r h = if-keeps RefsMatch _ _ r (grown _ _ _ _ r refl h) h

  skip_paths-RefsMatch :
      (policy : AdaptivePolicy) (r : RenderResult F) → RefsMatch r → RefsMatch (skip_paths policy r)
  unfolding skip_paths
  skip_paths-RefsMatch policy r h =
      when_some-keeps RefsMatch policy.spec.admission_control _ _ r h
        (λ cfg. grown _ _ _ _ r refl h)

  streaming-RefsMatch :
      (policy : AdaptivePolicy) (r : RenderResult F) → RefsMatch r → RefsMatch (streaming policy r)
  unfolding streaming
  streaming-RefsMatch policy r h =
      when_some-keeps RefsMatch policy.spec.streaming_protection _ _ r h
        (λ cfg. grown _ _ _ _ r refl h)

  -- The references for the status describe the rendered resources, one by one and in order.
  pub render-RefsMatch : (policy : AdaptivePolicy) → RefsMatch (render {F = F} policy)
  unfolding render
  render-RefsMatch policy = streaming-RefsMatch policy _ (
      skip_paths-RefsMatch policy _ (
        stats_flush-RefsMatch policy _
          (concurrency-RefsMatch policy _ (admission-RefsMatch policy _ (record { refs = refl })))))
