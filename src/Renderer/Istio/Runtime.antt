-- ===== src/Renderer/Istio/Runtime.antt =====
-- What a runtime layer changes in the configuration that is installed with it.
use shedpilot.Common.{
  String, ◌==◌, ◌≡◌, refl, Bool, not, false, Option, none, some, List, [], ◌∷◌, All, Bool-cases,
  inl, inr, if◌then◌else◌,
}
use shedpilot.Common.Dict.{Dict, lookup, insert}
use shedpilot.Common.Float.{Float}
use shedpilot.Api.{
  ManagedResource, AdaptivePolicy, AdmissionControlConfig, is_dry_run,
  effective_success_rate_threshold,
}
use shedpilot.Rtds.Client.{RuntimeValue}
use shedpilot.Renderer.Json.{
  Json, text, flag, number, integer, fields, items, Fields, end, field, member,
}
use shedpilot.Renderer.Result.{when_some-keeps, if-keeps, Resource, RenderResult, must_parse_float}
use shedpilot.Renderer.Istio.Configs.{
  admission_config, admission_layer, concurrency_layer, key_admission_enabled,
  key_admission_threshold, key_admission_aggression,
}
use shedpilot.Renderer.Istio.Render.{
  emit, render, admission, concurrency, stats_flush, skip_paths, streaming,
}

module _ {F : Type 0} where
  -- A default as a runtime value: a flag, a number, or an object with a number as its value.
  abbrev runtime_value : Option (Json F) → Option (RuntimeValue F)
  runtime_value none = none
  runtime_value (some (flag b)) = some (RuntimeValue.flag b)
  runtime_value (some (number x)) = some (RuntimeValue.number x)
  runtime_value (some (fields xs)) = elim (member "value" (fields xs)) [
    | some (number x) ↦ some (RuntimeValue.number x)
    | _ ↦ none
  ]
  runtime_value (some (text s)) = none
  runtime_value (some (integer n)) = none
  runtime_value (some (items xs)) = none

  -- Whether a member's runtime key is the given one.
  abbrev has_key : String → Option (Json F) → Bool
  has_key key (some (text k)) = k == key
  has_key key _ = false

  abbrev default_in : String → Fields F → Option (RuntimeValue F)
  default_in key end = none
  default_in key (field name x rest) =
      if has_key key (member "runtime_key" x)
      then runtime_value (member "default_value" x)
      else default_in key rest

  -- What a configuration has for a runtime key as long as no layer sets it.
  abbrev pub default_of : String → Json F → Option (RuntimeValue F)
  default_of key (fields xs) = default_in key xs
  default_of key _ = none

  -- A value that is a number, or the given flag.
  abbrev FlagIs : Bool → RuntimeValue F → Type 0
  FlagIs b (RuntimeValue.flag b') = b' ≡ b
  FlagIs b (RuntimeValue.number x) = Unit

  abbrev pub FlagsAre : Bool → Dict (Dict (RuntimeValue F)) → Type 0
  FlagsAre b layers = All (λ layer. All (λ entry. FlagIs b entry.1) layer.1) layers

module _ (F : Type 0) ⦃fl : Float F⦄ where
  admission_layer-flags :
      (policy : AdaptivePolicy)
      → All (λ entry. FlagIs (not (is_dry_run policy)) entry.1) (admission_layer {F = F} policy)
  unfolding admission_layer
  admission_layer-flags policy = (refl, (tt, (tt, tt)))

  concurrency_layer-flags :
      (policy : AdaptivePolicy)
      → All (λ entry. FlagIs (not (is_dry_run policy)) entry.1) (concurrency_layer {F = F} policy)
  unfolding concurrency_layer
  concurrency_layer-flags policy = (refl, tt)

module _ {F : Type 0} ⦃fl : Float F⦄ where
  -- The layer of admission control starts with the installed defaults for whether it is enabled and
  -- for its aggression; of the threshold x the installed default is x, the layer's value x / 100.
  pub default_of-admission_config :
      (policy : AdaptivePolicy) (cfg : AdmissionControlConfig)
      → let x = must_parse_float {F = F} (effective_success_rate_threshold policy) in
        (default_of {F = F} key_admission_enabled (admission_config policy cfg)
          ≡ lookup key_admission_enabled (admission_layer policy))
        × (default_of {F = F} key_admission_aggression (admission_config policy cfg)
            ≡ lookup key_admission_aggression (admission_layer policy))
        × (default_of {F = F} key_admission_threshold (admission_config policy cfg)
            ≡ some (RuntimeValue.number x))
        × (lookup key_admission_threshold (admission_layer policy)
            ≡ some (RuntimeValue.number (fl.div x (fl.constant 100 0))))
  unfolding admission_config admission_layer lookup
  default_of-admission_config policy cfg = (refl, refl, refl, refl)

  insert-FlagsAre :
      (b : Bool) (key : String) (layer : Dict (RuntimeValue F))
      (layers : Dict (Dict (RuntimeValue F)))
      → All (λ entry. FlagIs b entry.1) layer
      → FlagsAre b layers
      → FlagsAre b (insert key layer layers)
  unfolding insert
  insert-FlagsAre b key layer [] h hs = (h, tt)
  insert-FlagsAre b key layer (e ∷ layers) h hs = elim (Bool-cases (e.0 == key)) [
    | inl same ↦ rw same (h, hs.1)
    | inr other ↦ rw other (hs.0, insert-FlagsAre b key layer layers h hs.1)
  ]

  pub record FlagsFollow (policy : AdaptivePolicy) (r : RenderResult F) : Type 0 where
    pub flags : FlagsAre (not (is_dry_run policy)) r.rtds_layers

  emit-FlagsFollow :
      (policy : AdaptivePolicy) (x : Resource F) (m : ManagedResource) (filters : List String)
      (layers : Dict (Dict (RuntimeValue F))) (r : RenderResult F)
      → FlagsAre (not (is_dry_run policy)) layers
      → FlagsFollow policy (emit x m filters layers r)
  unfolding emit
  emit-FlagsFollow policy x m filters layers r h = record { flags = h }

  admission-FlagsFollow :
      (policy : AdaptivePolicy) (r : RenderResult F)
      → FlagsFollow policy r
      → FlagsFollow policy (admission policy r)
  unfolding admission
  admission-FlagsFollow policy r h =
      when_some-keeps (FlagsFollow policy) policy.spec.admission_control _ _ r h (λ cfg.
        emit-FlagsFollow policy _ _ _ _ r
          (insert-FlagsAre _ _ _ r.rtds_layers (admission_layer-flags F policy) h.flags))

  concurrency-FlagsFollow :
      (policy : AdaptivePolicy) (r : RenderResult F)
      → FlagsFollow policy r
      → FlagsFollow policy (concurrency policy r)
  unfolding concurrency
  concurrency-FlagsFollow policy r h =
      when_some-keeps (FlagsFollow policy) policy.spec.adaptive_concurrency _ _ r h (λ cfg.
        emit-FlagsFollow policy _ _ _ _ r
          (insert-FlagsAre _ _ _ r.rtds_layers (concurrency_layer-flags F policy) h.flags))

  stats_flush-FlagsFollow :
      (policy : AdaptivePolicy) (r : RenderResult F)
      → FlagsFollow policy r
      → FlagsFollow policy (stats_flush policy r)
  unfolding stats_flush
  stats_flush-FlagsFollow policy r h =
      if-keeps (FlagsFollow policy) _ _ r (emit-FlagsFollow policy _ _ _ _ r h.flags) h

  skip_paths-FlagsFollow :
      (policy : AdaptivePolicy) (r : RenderResult F)
      → FlagsFollow policy r
      → FlagsFollow policy (skip_paths policy r)
  unfolding skip_paths
  skip_paths-FlagsFollow policy r h =
      when_some-keeps (FlagsFollow policy) policy.spec.admission_control _ _ r h
        (λ cfg. emit-FlagsFollow policy _ _ _ _ r h.flags)

  streaming-FlagsFollow :
      (policy : AdaptivePolicy) (r : RenderResult F)
      → FlagsFollow policy r
      → FlagsFollow policy (streaming policy r)
  unfolding streaming
  streaming-FlagsFollow policy r h =
      when_some-keeps (FlagsFollow policy) policy.spec.streaming_protection _ _ r h
        (λ cfg. emit-FlagsFollow policy _ _ _ _ r h.flags)

  -- Every flag of every runtime layer that is rendered is on, but off in a dry run.
  pub render-FlagsFollow : (policy : AdaptivePolicy) → FlagsFollow policy (render policy)
  unfolding render
  render-FlagsFollow policy = streaming-FlagsFollow policy _ (
      skip_paths-FlagsFollow policy _ (
        stats_flush-FlagsFollow policy _ (
          concurrency-FlagsFollow policy _
            (admission-FlagsFollow policy _ (record { flags = tt })))))
