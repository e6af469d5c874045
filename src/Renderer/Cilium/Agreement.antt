-- ===== src/Renderer/Cilium/Agreement.antt =====
-- The two renderers side by side.
use shedpilot.Common.{
  String, ap, ◌≡◌, refl, Bool, true, false, Option, none, some, List, [], ◌∷◌, if◌then◌else◌,
}
use shedpilot.Common.Dict.{Dict, lookup, insert}
use shedpilot.Common.Float.{Float}
use shedpilot.Api.{
  ManagedResource, AdaptivePolicy, AdmissionControlConfig, AdaptiveConcurrencyConfig,
}
use shedpilot.Rtds.Client.{RuntimeValue}
use shedpilot.Renderer.Result.{
  Resource, RenderResult, when_some, when_some-keeps, if-keeps, must_parse_float,
}
use shedpilot.Renderer.Istio.Render
use shedpilot.Renderer.Istio.Render.{emit}
use shedpilot.Renderer.Json.{Json}
use shedpilot.Renderer.Istio.Configs.{
  admission_layer, concurrency_layer, key_admission_enabled, key_admission_threshold,
  key_admission_aggression, key_concurrency_enabled,
}
use shedpilot.Renderer.Istio.Runtime.{default_of}
use shedpilot.Renderer.Istio.Refs.{RefsMatch}
use shedpilot.Renderer.Cilium.{
  Filters, with_filter, add_admission, add_concurrency, admission_values, admission_proto,
  concurrency_values, concurrency_proto, build_cilium_envoy_config, config_of, render,
}

if-pair {ι κ μ} :
    {B : Type ι} {C : Type κ} (P : B → C → Type μ) (b : Bool) (x x' : B) (y y' : C)
    → P x y
    → P x' y'
    → P (if b then x else x') (if b then y else y')
if-pair P true x x' y y' h k = h
if-pair P false x x' y y' h k = k

when_some-pair {ℓ ι κ μ} :
    {A : Type ℓ} {B : Type ι} {C : Type κ} (P : B → C → Type μ) (o : Option A) (b : A → Bool)
    (f : A → B) (g : A → C) (x : B) (y : C)
    → P x y
    → ((a : A) → P (f a) (g a))
    → P (when_some o x (λ a. if b a then f a else x)) (when_some o y (λ a. if b a then g a else y))
when_some-pair P none b f g x y h k = h
when_some-pair P (some a) b f g x y h k = if-pair P (b a) (f a) x (g a) y (k a) h

module _ {F : Type 0} ⦃fl : Float F⦄ where
  -- For each key of a runtime layer, the installed configuration has the layer's value as the default.
  default_of-admission_proto :
      (policy : AdaptivePolicy) (admission : AdmissionControlConfig)
      (concurrency : AdaptiveConcurrencyConfig)
      → (default_of {F = F} key_admission_enabled (admission_proto policy admission)
          ≡ lookup key_admission_enabled (admission_values policy))
        × (default_of {F = F} key_admission_threshold (admission_proto policy admission)
            ≡ lookup key_admission_threshold (admission_values policy))
        × (default_of {F = F} key_admission_aggression (admission_proto policy admission)
            ≡ lookup key_admission_aggression (admission_values policy))
        × (default_of {F = F} key_concurrency_enabled (concurrency_proto policy concurrency)
            ≡ lookup key_concurrency_enabled (concurrency_values policy))
  unfolding admission_proto admission_values concurrency_proto concurrency_values lookup
      must_parse_float
  default_of-admission_proto policy admission concurrency = (refl, refl, refl, refl)

  -- A result and a list of filters with the same runtime layers.
  pub record SameLayers (r : RenderResult F) (fs : Filters F) : Type 0 where
    pub same : r.rtds_layers ≡ fs.layers

  emitted :
      (x : Resource F) (m : ManagedResource) (filters : List String) (proto : Json F)
      (name layer : String) (values : Dict (RuntimeValue F)) (r : RenderResult F) (fs : Filters F)
      → SameLayers r fs
      → SameLayers
          (emit x m filters (insert layer values r.rtds_layers) r)
          (with_filter proto name layer values fs)
  unfolding emit with_filter
  emitted x m filters proto name layer values r fs h = record {
    same = ap (insert layer values) h.same;
  }

  added :
      (x : Resource F) (m : ManagedResource) (filters : List String) (r : RenderResult F)
      (fs : Filters F)
      → SameLayers r fs
      → SameLayers (emit x m filters r.rtds_layers r) fs
  unfolding emit
  added x m filters r fs h = record { same = h.same }

  admission-SameLayers :
      (policy : AdaptivePolicy) (r : RenderResult F) (fs : Filters F)
      → SameLayers r fs
      → SameLayers (Render.admission policy r) (add_admission policy fs)
  unfolding Render.admission add_admission admission_values admission_layer
  admission-SameLayers policy r fs h =
      when_some-pair SameLayers policy.spec.admission_control _ _ _ r fs h
        (λ cfg. emitted _ _ _ _ _ _ _ r fs h)

  concurrency-SameLayers :
      (policy : AdaptivePolicy) (r : RenderResult F) (fs : Filters F)
      → SameLayers r fs
      → SameLayers (Render.concurrency policy r) (add_concurrency policy fs)
  unfolding Render.concurrency add_concurrency concurrency_values concurrency_layer
  concurrency-SameLayers policy r fs h =
      when_some-pair SameLayers policy.spec.adaptive_concurrency _ _ _ r fs h
        (λ cfg. emitted _ _ _ _ _ _ _ r fs h)

  rest-SameLayers :
      (policy : AdaptivePolicy) (r : RenderResult F) (fs : Filters F)
      → SameLayers r fs
      → SameLayers
          (Render.streaming policy (Render.skip_paths policy (Render.stats_flush policy r)))
          fs
  unfolding Render.streaming Render.skip_paths Render.stats_flush
  rest-SameLayers policy r fs h =
      let Same : RenderResult F → Type 0 = λ x. SameLayers x fs in
      let flushed = if-keeps Same _ _ r (added _ _ _ r fs h) h in
      let skipped =
        when_some-keeps Same policy.spec.admission_control _ _ _ flushed
          (λ cfg. added _ _ _ _ fs flushed) in
      when_some-keeps Same policy.spec.streaming_protection _ _ _ skipped
        (λ cfg. added _ _ _ _ fs skipped)

  config_of-SameLayers :
      (policy : AdaptivePolicy) (r : RenderResult F) (fs : Filters F) (protos : List (Json F))
      → SameLayers r fs
      → r.rtds_layers ≡ (config_of policy fs protos).rtds_layers
  unfolding config_of
  config_of-SameLayers policy r fs [] h = h.same
  config_of-SameLayers policy r fs (proto ∷ protos) h = h.same

  -- Whatever the mesh, a policy has the same runtime layers with the same values.
  pub layers-render :
      (policy : AdaptivePolicy)
      → (Render.render {F = F} policy).rtds_layers ≡ (render policy).rtds_layers
  unfolding Render.render render
  layers-render policy = config_of-SameLayers policy _ _ _ (
      rest-SameLayers policy _ _ (
        concurrency-SameLayers policy _ _
          (admission-SameLayers policy _ _ (record { same = refl }))))

  config_of-RefsMatch :
      (policy : AdaptivePolicy) (fs : Filters F) (protos : List (Json F))
      → RefsMatch (config_of policy fs protos)
  unfolding config_of build_cilium_envoy_config
  config_of-RefsMatch policy fs [] = record { refs = refl }
  config_of-RefsMatch policy fs (proto ∷ protos) = record { refs = refl }

  -- The reference for the status describes the resource that is rendered, if there is one.
  pub cilium_render-RefsMatch : (policy : AdaptivePolicy) → RefsMatch {F = F} (render policy)
  unfolding render
  cilium_render-RefsMatch policy =
      let none_yet : Filters F = record { protos = []; names = []; layers = [] } in
      config_of-RefsMatch policy (add_concurrency policy (add_admission policy none_yet)) _
