-- ===== src/Renderer/Detect.antt =====
-- internal/renderer/detect.go: which renderer a policy gets.
use shedpilot.Common.{
  String, ◌≡◌, ◌≢◌, ◌⊎◌, arith, Bool, true, false, Option, none, some, List, [], ◌∷◌, ◌==◌,
  if◌then◌else◌, ℤ, eq_iff, Bool-cases, inl, inr,
}
use shedpilot.Api.{AdaptivePolicy, effective_mesh_backend, mesh_backend_istio, mesh_backend_cilium}
use shedpilot.Renderer.Istio.Render.{istio_detects}
use shedpilot.Renderer.Cilium.{cilium_detects}

-- The two implementations of the interface Renderer.
pub data Backend : Type 0 where
  istio cilium : Backend

-- What listing finds in the cluster: the phases of the istiod pods, the ready numbers of the
-- cilium-envoy daemon sets; none where the listing fails.
pub record Cluster : Type 0 where
  pub istiod_phases : Option (List String)
  pub cilium_ready : Option (List ℤ)

abbrev detects : Backend → Cluster → Bool
detects istio c = istio_detects c.istiod_phases
detects cilium c = cilium_detects c.cilium_ready

-- The first that is found; none is the error of the source.
unfoldable pub first_found : Cluster → List Backend → Option Backend
first_found c [] = none
first_found c (b ∷ bs) = let later = first_found c bs in if detects b c then some b else later

abbrev pub detect : Cluster → Option Backend
detect c = first_found c (istio ∷ cilium ∷ [])

unfoldable pub detect_and_build : Cluster → AdaptivePolicy → Option Backend
detect_and_build c policy =
    if effective_mesh_backend policy == mesh_backend_istio
    then some istio
    else if effective_mesh_backend policy == mesh_backend_cilium
    then some cilium
    else detect c

-- The policy names neither mesh.
abbrev pub NamesNone : AdaptivePolicy → Type 0
NamesNone policy =
    (effective_mesh_backend policy ≢ mesh_backend_istio)
    × (effective_mesh_backend policy ≢ mesh_backend_cilium)

-- Why a renderer, or an error, is the answer: what the policy names decides, and what is detected only
-- where it names none, Cilium only where Istio is not.
abbrev pub Justified : Cluster → AdaptivePolicy → Option Backend → Type 0
Justified c policy (some istio) =
    (effective_mesh_backend policy ≡ mesh_backend_istio)
    ⊎ (NamesNone policy × (istio_detects c.istiod_phases ≡ true))
Justified c policy (some cilium) =
    (effective_mesh_backend policy ≡ mesh_backend_cilium)
    ⊎ (NamesNone policy
        × (istio_detects c.istiod_phases ≡ false)
        × (cilium_detects c.cilium_ready ≡ true))
Justified c policy none =
    NamesNone policy
    × (istio_detects c.istiod_phases ≡ false)
    × (cilium_detects c.cilium_ready ≡ false)

-- A mesh that the policy names decides, whatever is detected. Where it names none, Istio is chosen
-- if it is detected, Cilium if it is and Istio is not, and there is an error if neither is.
pub detect_and_build-Justified :
    (c : Cluster) (policy : AdaptivePolicy) → Justified c policy (detect_and_build c policy)
unfolding detect_and_build first_found
detect_and_build-Justified c policy =
    let is_istio = eq_iff (effective_mesh_backend policy) mesh_backend_istio in
    let is_cilium = eq_iff (effective_mesh_backend policy) mesh_backend_cilium in
    elim (Bool-cases (effective_mesh_backend policy == mesh_backend_istio)) [
      | inl e ↦ rw e (inl (is_istio.0 e))
      | inr e ↦ elim (Bool-cases (effective_mesh_backend policy == mesh_backend_cilium)) [
        | inl f ↦ rw (e, f) (inl (is_cilium.0 f))
        | inr f ↦
            let unnamed : NamesNone policy = (ground arith, ground arith) in
            elim (Bool-cases (istio_detects c.istiod_phases)) [
              | inl g ↦ rw (e, f, g) (inr (unnamed, g))
              | inr g ↦ elim (Bool-cases (cilium_detects c.cilium_ready)) [
                | inl h ↦ rw (e, f, g, h) (inr (unnamed, g, h))
                | inr h ↦ rw (e, f, g, h) (unnamed, g, h)
              ]
            ]
      ]
    ]
