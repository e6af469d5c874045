-- ===== src/Renderer/Result.antt =====
-- internal/renderer/interface.go and the helpers of istio.go that both renderers use.
use shedpilot.Common.{
  String, pos, Bool, true, false, Option, none, some, List, [], ◌∷◌, ◌==◌, if◌then◌else◌,
  is_nonempty,
}
use shedpilot.Common.Dict.{Dict, lookup}
use shedpilot.Common.Float.{Float}
use shedpilot.Api.{
  AdaptivePolicy, ManagedResource, HttpStatusRange, percentile_p75, percentile_p90, percentile_p99,
}
use shedpilot.Rtds.Client.{RuntimeValue}
use shedpilot.Renderer.Json.{Json, integer, object}

pub record OwnerReference : Type 0 where
  pub api_version : String
  pub kind : String
  pub name : String
  pub uid : String
  pub controller : Bool
  pub block_owner_deletion : Bool

-- unstructured.Unstructured, with the metadata that the renderers set.
pub record Resource (F : Type 0) : Type 0 where
  pub api_version : String
  pub kind : String
  pub name : String
  pub namespace : String
  pub labels : Dict String
  pub owner_references : List OwnerReference
  pub spec : Dict (Json F)

pub record RenderResult (F : Type 0) : Type 0 where
  pub resources : List (Resource F)
  pub managed_resource_refs : List ManagedResource
  pub active_filters : List String
  pub rtds_layers : Dict (Dict (RuntimeValue F))

pub owner_references : AdaptivePolicy → List OwnerReference
owner_references policy =
    record {
      api_version = "resilience.shedpilot.io/v1alpha1";
      kind = "AdaptivePolicy";
      name = policy.name;
      uid = policy.uid;
      controller = true;
      block_owner_deletion = true;
    }
    ∷ []

pub resource_labels : AdaptivePolicy → Dict String
resource_labels policy =
    ("app.kubernetes.io/managed-by", "shedpilot")
    ∷ ("resilience.shedpilot.io/policy", policy.name)
    ∷ ("resilience.shedpilot.io/policy-namespace", policy.namespace)
    ∷ []

-- The first entry of the selector, in whatever order the map has.
abbrev first_value : Dict String → String
first_value [] = "*"
first_value (entry ∷ rest) = entry.1

unfoldable pub selector_to_host : Dict String → String
unfolding first_value
selector_to_host selector = elim (lookup "app" selector) [
  | some app ↦ app
  | none ↦ first_value selector
]

-- What a pointer that may be nil adds to a result.
abbrev pub when_some {ℓ κ} : {A : Type ℓ} {B : Type κ} → Option A → B → (A → B) → B
when_some none r f = r
when_some (some a) r f = f a

pub if-keeps {κ μ} :
    {B : Type κ} (P : B → Type μ) (b : Bool) (x y : B) → P x → P y → P (if b then x else y)
if-keeps P true x y h k = h
if-keeps P false x y h k = k

pub when_some-keeps {ℓ κ μ} :
    {A : Type ℓ} {B : Type κ} (P : B → Type μ) (o : Option A) (b : A → Bool) (f : A → B) (r : B)
    → P r
    → ((a : A) → P (f a))
    → P (when_some o r (λ a. if b a then f a else r))
when_some-keeps P none b f r h k = h
when_some-keeps P (some a) b f r h k = if-keeps P (b a) (f a) r (k a) h

-- The ranges of the policy, or 100 to 399.
pub success_ranges : List HttpStatusRange → List HttpStatusRange
success_ranges codes =
    if is_nonempty codes then codes else record { start = pos 100; end = pos 399 } ∷ []

abbrev pub range_json : {F : Type 0} → HttpStatusRange → Json F
range_json r = object (("start", integer r.start) ∷ ("end", integer r.end) ∷ [])

module _ {F : Type 0} ⦃fl : Float F⦄ where
  abbrev pub or_zero : Option F → F
  or_zero none = fl.of_int (pos 0)
  or_zero (some x) = x

  unfoldable pub must_parse_float : String → F
  must_parse_float s = or_zero (fl.scan s)

  -- Percentile.EnvoyValue
  pub envoy_value : String → F
  envoy_value p =
      if p == percentile_p75
      then fl.of_int (pos 75)
      else if p == percentile_p90
      then fl.of_int (pos 90)
      else if p == percentile_p99
      then fl.of_int (pos 99)
      else fl.of_int (pos 50)
