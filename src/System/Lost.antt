-- ===== src/System/Lost.antt =====
-- A switch whose policy cannot be read again.
use shedpilot.Common.{String, ap, ◌∙◌, ◌≡◌, ◌⊎◌, inl, inr, refl, true, none, some}
use shedpilot.Common.Float.{Float}
use shedpilot.Api.{AdaptivePolicy}
use shedpilot.Rtds.Server.{World}
use shedpilot.Renderer.Detect.{Backend, detect_and_build}
use shedpilot.Controller.Validate.{validate_policy}
use shedpilot.Controller.Manager.{Manager, Env, Done, found, gone, unreachable}
use shedpilot.Controller.Reconcile.{reconcile, act, switching}
use shedpilot.Controller.Reconcile.Cases.{reconcile-act}
use shedpilot.System.Persists.{Calmly, current-Calmly}

module _ {F : Type 0} ⦃fl : Float F⦄ where
  -- Nothing comes of a reconcile but what the reconciler remembers.
  pub record Dropped (m : Manager F) (done : Done F) : Type 0 where
    pub world : done.manager.world ≡ m.world
    pub objects : done.manager.objects ≡ m.objects
    pub status : done.status ≡ none

  reconcile-Dropped :
      (env : Env F) (key : String) (m : Manager F) (b : Backend) (read : AdaptivePolicy)
      → env.fetched ≡ found read
      → validate_policy read ≡ none
      → detect_and_build env.cluster read ≡ some b
      → (switching env key read m).switched ≡ true
      → (env.refetched ≡ gone) ⊎ (env.refetched ≡ unreachable)
      → Dropped m (reconcile env key m)
  unfolding act
  reconcile-Dropped env key m b read fetched accepted meshed moved (inl lost) =
      rw (reconcile-act env key m read b fetched accepted meshed)
        (rw (moved, lost) (record { world = refl; objects = refl; status = refl }))
  reconcile-Dropped env key m b read fetched accepted meshed moved (inr lost) =
      rw (reconcile-act env key m read b fetched accepted meshed)
        (rw (moved, lost) (record { world = refl; objects = refl; status = refl }))

  -- After a reconcile of a valid policy, in a mesh that is detected, that switches the profile
  -- but cannot read the policy again: no sidecar has received anything, no resource has changed
  -- and no status was sent; and for as long as no reconcile switches a profile, whatever is
  -- reconciled and whoever connects, the current values of the server are still those from
  -- before the switch.
  pub switch-Lost :
      {n : Manager F} (env : Env F) (key : String) (m : Manager F) (b : Backend)
      (read : AdaptivePolicy)
      → env.fetched ≡ found read
      → validate_policy read ≡ none
      → detect_and_build env.cluster read ≡ some b
      → (switching env key read m).switched ≡ true
      → (env.refetched ≡ gone) ⊎ (env.refetched ≡ unreachable)
      → Calmly (reconcile env key m).manager n
      → Dropped m (reconcile env key m) × (n.world.server.current ≡ m.world.server.current)
  switch-Lost env key m b read fetched accepted meshed moved lost calm =
      let d = reconcile-Dropped env key m b read fetched accepted meshed moved lost in
      (d, current-Calmly calm ∙ ap (λ (w : World). w.server.current) d.world)
