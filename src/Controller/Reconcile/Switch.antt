-- ===== src/Controller/Reconcile/Switch.antt =====
-- A reconcile that switches the profile.
use shedpilot.Common.{
  String, ap, ◌∙◌, ◌≡◌, refl, Bool, true, false, not, Option, none, some, [], ◌∷◌, ◌&&◌,
  if◌then◌else◌, arith,
}
use shedpilot.Common.Dict.{lookup, Dict}
use shedpilot.Common.Float.{Float}
use shedpilot.Api.{AdaptivePolicy}
use shedpilot.Rtds.Client.{Client, connected, RuntimeValue, register_layer}
use shedpilot.Rtds.Server.{World}
use shedpilot.Renderer.Detect.{Backend}
use shedpilot.Controller.Prune.{is_rendered, orphans}
use shedpilot.Controller.Deliver.{prune_orphaned_resources, render_with, register_layers}
use shedpilot.Controller.Deliver.Converges.{lookup-delete_all, is_rendered-orphans}
use shedpilot.Controller.Manager.{Manager, Env, Done}
use shedpilot.Controller.Reconcile.{reconcile, switching, applied, delivered, finish}
use shedpilot.Controller.Reconcile.Acts.{Acts, objects-reconcile, reconcile-finish}

-- Whether RTDS can deliver.
abbrev pub is_connected : Option Client → Bool
is_connected none = false
is_connected (some c) = connected c

module _ {F : Type 0} where
  pub connected-register_layers :
      (policy : AdaptivePolicy) (layers : Dict (Dict (RuntimeValue F))) (c : Client)
      → connected (register_layers policy layers c) ≡ connected c
  unfolding register_layers register_layer
  connected-register_layers policy [] c = refl
  connected-register_layers policy (layer ∷ layers) c =
      connected-register_layers policy layers
        (register_layer layer.0 policy.namespace policy.spec.selector c)

module _ {F : Type 0} ⦃fl : Float F⦄ where
  pub world-delivered :
      (switched : Bool) (b : Backend) (policy : AdaptivePolicy)
      (layers : Dict (Dict (RuntimeValue F))) (client : Option Client) (w : World)
      → switched && is_connected client ≡ false
      → (delivered switched b policy layers client w).1 ≡ w
  unfolding delivered
  world-delivered switched b policy layers none w h = refl
  world-delivered switched b policy layers (some c) w h =
      let same = connected-register_layers policy layers c in rw same (ground arith)

  -- Nothing reaches a sidecar unless the profile was switched and the client is connected.
  world-reconcile :
      (env : Env F) (key : String) (m : Manager F) (b : Backend) (read policy : AdaptivePolicy)
      → Acts env key m b read policy
      → (switching env key read m).switched && is_connected m.rtds_client ≡ false
      → (reconcile env key m).manager.world ≡ m.world
  unfolding finish
  world-reconcile env key m b read policy h off =
      ap (λ (done : Done F). done.manager.world) (reconcile-finish env key m b read policy h)
      ∙ world-delivered (switching env key read m).switched b policy
          (render_with b policy).rtds_layers m.rtds_client m.world off

  -- A reconcile of a valid policy, in a mesh that is detected, that switches the profile and
  -- reads the policy again without a failure, but has no connected client, delivers the switch
  -- to nobody: no sidecar receives anything, and the resources stay as they are, but for those
  -- that the policy's status names, that are no longer rendered and whose deletion the server
  -- takes.
  pub reconcile-Undelivered :
      (env : Env F) (key other : String) (m : Manager F) (b : Backend)
      (read policy : AdaptivePolicy)
      → Acts env key m b read policy
      → (switching env key read m).switched ≡ true
      → is_connected m.rtds_client ≡ false
      → ((reconcile env key m).manager.world ≡ m.world)
        × (lookup other (reconcile env key m).manager.objects ≡ (
            if (not (is_rendered other (render_with {F = F} b policy).managed_resource_refs)
                && is_rendered other policy.status.managed_resources)
              && env.answers.deletes other
            then none
            else lookup other m.objects))
  unfolding applied prune_orphaned_resources
  reconcile-Undelivered env key other m b read policy h moved off =
      let res = render_with {F = F} b policy in
      let named = policy.status.managed_resources in
      let which = is_rendered-orphans other res.managed_resource_refs named in
      let left =
        lookup-delete_all env.answers (orphans res.managed_resource_refs named) m.objects other in
      (
        world-reconcile env key m b read policy h (rw (moved, off) refl),
        ap (lookup other) (rw moved at (objects-reconcile env key m b read policy h))
            ∙ left
            ∙ rw which refl,
      )
