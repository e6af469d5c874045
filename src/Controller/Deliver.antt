-- ===== src/Controller/Deliver.antt =====
-- internal/controller/adaptivepolicy_controller.go: how Reconcile applies what was rendered, deletes what
-- is no longer rendered, and pushes the runtime layers. The cluster is the objects of the policy's
-- namespace by kind and name; which writes the server takes is an argument.
pub mod Converges
pub mod Pushes
use shedpilot.Common.{
  String, Bool, true, false, not, Option, none, some, List, [], ◌∷◌, ◌<>◌, ◌&&◌, if◌then◌else◌, ℤ,
}
use shedpilot.Common.Dict.{Dict, insert, erase}
use shedpilot.Common.Float.{Float}
use shedpilot.Api.{AdaptivePolicy, ManagedResource}
use shedpilot.Renderer.Result.{Resource, RenderResult}
use shedpilot.Renderer.Istio.Render as Istio
use shedpilot.Renderer.Cilium as Cilium
use shedpilot.Renderer.Detect.{Backend, istio, cilium}
use shedpilot.Rtds.Server.{World}
use shedpilot.Rtds.Client.{Client, RuntimeValue, PushError, connected, register_layer, push}
use shedpilot.Controller.Prune.{key_of, orphans}

-- The answers of the API server to the writes of one reconcile, by kind and name: the error of an
-- application, and whether a deletion is taken.
pub record Answers : Type 0 where
  pub refuses : String → Option String
  pub deletes : String → Bool

abbrev pub resource_key : {F : Type 0} → Resource F → String
resource_key r = r.kind <> "/" <> r.name

module _ {F : Type 0} where
  abbrev unless_refused :
      Option String
      → Dict (Resource F) × Option String
      → Dict (Resource F)
      → Dict (Resource F) × Option String
  unless_refused none rest objects = rest
  unless_refused (some error) rest objects = (objects, some error)

  -- Step 6: the resources in order, up to the first that is refused, whose error is returned.
  unfoldable pub apply_all :
      Answers → List (Resource F) → Dict (Resource F) → Dict (Resource F) × Option String
  apply_all a [] objects = (objects, none)
  apply_all a (r ∷ rs) objects =
      let rest = apply_all a rs (insert (resource_key r) r objects) in
      unless_refused (a.refuses (resource_key r)) rest objects

  -- A refusal to delete is logged, and the next resource is deleted.
  unfoldable pub delete_all : Answers → List ManagedResource → Dict (Resource F) → Dict (Resource F)
  delete_all a [] objects = objects
  delete_all a (m ∷ ms) objects =
      delete_all a ms (if a.deletes (key_of m) then erase (key_of m) objects else objects)

  -- Step 6b.
  unfoldable pub prune_orphaned_resources :
      Answers → AdaptivePolicy → List ManagedResource → Dict (Resource F) → Dict (Resource F)
  unfolding delete_all orphans
  prune_orphaned_resources a policy current objects =
      delete_all a (orphans current policy.status.managed_resources) objects

  -- Step 7, its first half.
  unfoldable pub register_layers : AdaptivePolicy → Dict (Dict (RuntimeValue F)) → Client → Client
  register_layers policy [] c = c
  register_layers policy (layer ∷ layers) c =
      register_layers policy layers (register_layer layer.0 policy.namespace policy.spec.selector c)

abbrev pub no_error : Option PushError → Bool
no_error none = true
no_error (some e) = false

module _ {F : Type 0} ⦃fl : Float F⦄ where
  unfoldable pub render_with : Backend → AdaptivePolicy → RenderResult F
  unfolding Istio.render Cilium.render
  render_with istio policy = Istio.render policy
  render_with cilium policy = Cilium.render policy

  -- The second half: every layer is pushed, whatever failed before; the Boolean is whether all arrived.
  unfoldable pub push_layers : Client → Dict (Dict (RuntimeValue F)) → World → World × Bool
  unfolding push
  push_layers c [] w = (w, true)
  push_layers c (layer ∷ layers) w =
      let (w', failure) = push c layer.0 layer.1 w in
      let (w'', arrived) = push_layers c layers w' in (w'', no_error failure && arrived)

abbrev pub rtds_supported : Backend → Bool
rtds_supported istio = Istio.rtds_supported
rtds_supported cilium = Cilium.cilium_rtds_supported

abbrev pub backend_name : Backend → String
backend_name istio = "istio"
backend_name cilium = "cilium"
