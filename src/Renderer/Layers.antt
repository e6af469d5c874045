-- ===== src/Renderer/Layers.antt =====
-- The names of the runtime layers that a renderer gives.
use shedpilot.Common.{String, List, subst}
use shedpilot.Common.Dict.{Dict, insert}
use shedpilot.Common.Float.{Float}
use shedpilot.Api.{AdaptivePolicy, ManagedResource}
use shedpilot.Rtds.Client.{RuntimeValue}
use shedpilot.Rtds.Server.Keys.{UniqueKeys, insert-UniqueKeys}
use shedpilot.Renderer.Result.{Resource, RenderResult, when_some-keeps, if-keeps}
use shedpilot.Renderer.Istio.Render as Istio
use shedpilot.Renderer.Cilium as Cilium
use shedpilot.Renderer.Cilium.Agreement.{layers-render}

-- No layer of the result has two entries.
pub record UniqueLayers {F : Type 0} (r : RenderResult F) : Type 0 where
  pub unique : UniqueKeys r.rtds_layers

module _ {F : Type 0} ⦃fl : Float F⦄ where
  inserted :
      (x : Resource F) (m : ManagedResource) (filters : List String) (layer : String)
      (values : Dict (RuntimeValue F)) (r : RenderResult F)
      → UniqueLayers r
      → UniqueLayers (Istio.emit x m filters (insert layer values r.rtds_layers) r)
  unfolding Istio.emit
  inserted x m filters layer values r h = record {
    unique = insert-UniqueKeys layer values r.rtds_layers h.unique;
  }

  added :
      (x : Resource F) (m : ManagedResource) (filters : List String) (r : RenderResult F)
      → UniqueLayers r
      → UniqueLayers (Istio.emit x m filters r.rtds_layers r)
  unfolding Istio.emit
  added x m filters r h = record { unique = h.unique }

  filters-UniqueLayers :
      (policy : AdaptivePolicy) (r : RenderResult F)
      → UniqueLayers r
      → UniqueLayers (Istio.concurrency policy (Istio.admission policy r))
  unfolding Istio.admission Istio.concurrency
  filters-UniqueLayers policy r h =
      let admitted =
        when_some-keeps UniqueLayers policy.spec.admission_control _ _ r h
          (λ cfg. inserted _ _ _ _ _ r h) in
      when_some-keeps UniqueLayers policy.spec.adaptive_concurrency _ _ _ admitted
        (λ cfg. inserted _ _ _ _ _ _ admitted)

  rest-UniqueLayers :
      (policy : AdaptivePolicy) (r : RenderResult F)
      → UniqueLayers r
      → UniqueLayers (Istio.streaming policy (Istio.skip_paths policy (Istio.stats_flush policy r)))
  unfolding Istio.stats_flush Istio.skip_paths Istio.streaming
  rest-UniqueLayers policy r h =
      let flushed = if-keeps UniqueLayers _ _ r (added _ _ _ r h) h in
      let skipped =
        when_some-keeps UniqueLayers policy.spec.admission_control _ _ _ flushed
          (λ cfg. added _ _ _ _ flushed) in
      when_some-keeps UniqueLayers policy.spec.streaming_protection _ _ _ skipped
        (λ cfg. added _ _ _ _ skipped)

  pub render-UniqueLayers : (policy : AdaptivePolicy) → UniqueLayers (Istio.render {F = F} policy)
  unfolding Istio.render
  render-UniqueLayers policy =
      rest-UniqueLayers policy _
        (filters-UniqueLayers policy Istio.nothing (record { unique = tt }))

  pub cilium_render-UniqueLayers :
      (policy : AdaptivePolicy) → UniqueLayers (Cilium.render {F = F} policy)
  cilium_render-UniqueLayers policy = record {
    unique = subst UniqueKeys (layers-render policy) (render-UniqueLayers policy).unique;
  }
