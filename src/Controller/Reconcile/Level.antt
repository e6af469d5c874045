-- ===== src/Controller/Reconcile/Level.antt =====
-- The resources in the cluster after a reconcile.
use mathlib.Core.Bool.{false≢true}
use shedpilot.Common.{
  not, String, ap, sym, ◌∙◌, ◌≡◌, refl, Bool, true, false, Option, none, some, List, ◌&&◌,
  if◌then◌else◌, arith,
}
use shedpilot.Common.Dict.{lookup, Dict, is_some}
use shedpilot.Common.Float.{Float}
use shedpilot.Api.{AdaptivePolicy, ManagedResource}
use shedpilot.Rtds.Server.Delivery.{or_else}
use shedpilot.Renderer.Result.{Resource}
use shedpilot.Renderer.Detect.{Backend}
use shedpilot.Controller.Prune.{is_rendered}
use shedpilot.Controller.Deliver.{apply_all, render_with}
use shedpilot.Controller.Deliver.Converges.{
  rendered, converges, is_rendered-RefsMatch, render_with-RefsMatch,
}
use shedpilot.Controller.Manager.{Manager, Env, Done}
use shedpilot.Controller.Reconcile.{reconcile, switching, applied}
use shedpilot.Controller.Reconcile.Acts.{Acts, managed, managed-reconcile, objects-reconcile}

-- Every resource of the cluster is one that the status names.
abbrev pub Tracked : {F : Type 0} → Dict (Resource F) → List ManagedResource → Type 0
Tracked objects named =
    (key : String) → (is_some (lookup key objects) && not (is_rendered key named)) ≡ false

-- The cluster holds what the policy renders, which is what the status names.
pub record Level {F : Type 0} ⦃fl : Float F⦄ (b : Backend) (policy : AdaptivePolicy) (done : Done F)
    : Type 0 where
  pub level :
      (key : String)
      → lookup key done.manager.objects ≡ rendered key (render_with {F = F} b policy).resources
  pub tracked : Tracked done.manager.objects (managed done.status)

if-none {ℓ} :
    {A : Type ℓ} (named : Bool) (o : Option A)
    → (is_some o && not named) ≡ false
    → (if named && true then none else o) ≡ none
if-none true o h = refl
if-none false none h = refl
if-none false (some a) h = absurd (false≢true (sym h))

contradictory : (a b c : Bool) → a ≡ c → b ≡ c → (a && not b) ≡ false
contradictory a b c e f = ground arith

none-of {ℓ} : {A : Type ℓ} (o : Option A) → is_some o ≡ false → o ≡ none
none-of none h = refl
none-of (some a) h = absurd (false≢true (sym h))

or_else-none {ℓ} : {A : Type ℓ} (o : Option A) → or_else o none ≡ o
or_else-none none = refl
or_else-none (some a) = refl

module _ {F : Type 0} ⦃fl : Float F⦄ (env : Env F) (key : String) (m : Manager F)
    (b : Backend) where
  unswitched :
      (policy : AdaptivePolicy) (other : String)
      → Acts env key m b policy policy
      → (switching env key policy m).switched ≡ false
      → lookup other (reconcile env key m).manager.objects
        ≡ or_else (rendered other (render_with b policy).resources) (
            if is_rendered other policy.status.managed_resources && env.answers.deletes other
            then none
            else lookup other m.objects)
  unfolding applied
  unswitched policy other h stays =
      let same = objects-reconcile env key m b policy policy h in
      let taken : (apply_all env.answers (render_with {F = F} b policy).resources m.objects).1
          ≡ none =
        rw stays at h.taken in
      ap (lookup other) (rw stays at same) ∙ converges env.answers b policy m.objects other taken

  -- A reconcile that acts without a switch, while every write is taken and the status names every
  -- resource of the cluster, leaves the cluster with exactly the resources that the policy renders,
  -- and a status that names them all.
  pub reconcile-Level :
      (policy : AdaptivePolicy)
      → Acts env key m b policy policy
      → (switching env key policy m).switched ≡ false
      → ((other : String) → env.answers.deletes other ≡ true)
      → Tracked m.objects policy.status.managed_resources
      → Level b policy (reconcile env key m)
  reconcile-Level policy h stays deletes tracked =
      let res = render_with {F = F} b policy in
      let at : (other : String)
          → lookup other (reconcile env key m).manager.objects ≡ rendered other res.resources =
        λ other.
          unswitched policy other h stays
          ∙ rw (deletes other, if-none _ (lookup other m.objects) (tracked other))
              (or_else-none (rendered other res.resources)) in
      record {
        level = at;
        tracked = λ other.
            contradictory _ _ (is_some (rendered other res.resources)) (ap is_some (at other)) (
              ap (is_rendered other) (managed-reconcile env key m b policy policy h)
              ∙ is_rendered-RefsMatch other res (render_with-RefsMatch b policy));
      }

  -- When the server refuses to delete a resource that is no longer rendered, the resource stays, and
  -- the status that the reconcile sends does not name it any more.
  pub reconcile-forgets :
      (policy : AdaptivePolicy) (other : String)
      → Acts env key m b policy policy
      → (switching env key policy m).switched ≡ false
      → is_rendered other (render_with {F = F} b policy).managed_resource_refs ≡ false
      → env.answers.deletes other ≡ false
      → (lookup other (reconcile env key m).manager.objects ≡ lookup other m.objects)
        × (is_rendered other (managed (reconcile env key m).status) ≡ false)
  reconcile-forgets policy other h stays dropped refused =
      let res = render_with {F = F} b policy in
      let absent =
        none-of (rendered other res.resources)
          (sym (is_rendered-RefsMatch other res (render_with-RefsMatch b policy)) ∙ dropped) in
      (
        unswitched policy other h stays ∙ rw (absent, refused) (ground arith),
        ap (is_rendered other) (managed-reconcile env key m b policy policy h) ∙ dropped,
      )
