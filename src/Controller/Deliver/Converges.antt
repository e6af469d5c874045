-- ===== src/Controller/Deliver/Converges.antt =====
-- What the cluster holds after resources were applied and pruned.
use shedpilot.Common.{
  String, ap, sym, ◌∙◌, ◌≡◌, refl, Bool, not, Option, none, some, List, [], ◌∷◌, map, arith, eq_iff,
  Bool-cases, Option-cases, ◌≢◌, inl, inr, ◌==◌, ◌&&◌, if◌then◌else◌, is_nonempty,
}
use shedpilot.Common.Dict.{Dict, lookup, insert, erase, is_some, lookup-insert, lookup-erase}
use shedpilot.Common.Float.{Float}
use shedpilot.Api.{AdaptivePolicy, ManagedResource}
use shedpilot.Renderer.Result.{Resource, RenderResult}
use shedpilot.Renderer.Istio.Refs.{ref_of, RefsMatch, render-RefsMatch}
use shedpilot.Renderer.Cilium.Agreement.{cilium_render-RefsMatch}
use shedpilot.Renderer.Detect.{Backend, istio, cilium}
use shedpilot.Rtds.Server.Delivery.{or_else}
use shedpilot.Controller.Prune.{key_of, orphans, is_rendered, with_key, with_key-orphans}
use shedpilot.Controller.Deliver.{
  Answers, resource_key, apply_all, delete_all, prune_orphaned_resources, render_with,
}

some-none : (s : String) → Option.some s ≢ none
some-none s = ground arith

module _ {F : Type 0} where
  -- The last of the resources with a kind and name.
  abbrev pub rendered : String → List (Resource F) → Option (Resource F)
  rendered key [] = none
  rendered key (r ∷ rs) = or_else (rendered key rs) (if resource_key r == key then some r else none)

  or_else_assoc :
      (o : Option (Resource F)) (b : Bool) (r : Resource F) (old : Option (Resource F))
      → or_else o (if b then some r else old) ≡ or_else (or_else o (if b then some r else none)) old
  or_else_assoc o b r old = ground arith

  lookup-apply_all :
      (a : Answers) (rs : List (Resource F)) (objects : Dict (Resource F)) (key : String)
      → (apply_all a rs objects).1 ≡ none
      → lookup key (apply_all a rs objects).0 ≡ or_else (rendered key rs) (lookup key objects)
  unfolding apply_all
  lookup-apply_all a [] objects key all = refl
  lookup-apply_all a (r ∷ rs) objects key all =
      let rec = lookup-apply_all a rs (insert (resource_key r) r objects) key in
      let put = lookup-insert (resource_key r) key r objects in
      elim (Option-cases (a.refuses (resource_key r))) [
        | inl e ↦ rw e (
            rec (rw e at all)
            ∙ rw put
                (or_else_assoc (rendered key rs) (resource_key r == key) r (lookup key objects)))
        | inr (error, e) ↦ absurd (some-none error (rw e at all))
      ]

  pub lookup-delete_all :
      (a : Answers) (ms : List ManagedResource) (objects : Dict (Resource F)) (key : String)
      → lookup key (delete_all a ms objects)
        ≡ (if is_rendered key ms && a.deletes key then none else lookup key objects)
  unfolding delete_all
  lookup-delete_all a [] objects key = refl
  lookup-delete_all a (m ∷ ms) objects key =
      let gone = lookup-erase (key_of m) key objects in
      let rec = λ (o : Dict (Resource F)). lookup-delete_all a ms o key in
      elim (Bool-cases (key_of m == key)) [
        | inl e ↦
            let same = ap a.deletes ((eq_iff (key_of m) key).0 e) in
            elim (Bool-cases (a.deletes (key_of m))) [
              | inl d ↦ rw d (rec (erase (key_of m) objects) ∙ ground arith)
              | inr d ↦ rw d (rec objects ∙ ground arith)
            ]
        | inr e ↦ elim (Bool-cases (a.deletes (key_of m))) [
          | inl d ↦ rw d (rec (erase (key_of m) objects) ∙ ground arith)
          | inr d ↦ rw d (rec objects ∙ ground arith)
        ]
      ]

  is_rendered-refs :
      (key : String) (rs : List (Resource F))
      → is_rendered key (map ref_of rs) ≡ is_some (rendered key rs)
  is_rendered-refs key [] = refl
  is_rendered-refs key (r ∷ rs) = let rec = is_rendered-refs key rs in ground arith

module _ {F : Type 0} where
  pub is_rendered-RefsMatch :
      (key : String) (r : RenderResult F)
      → RefsMatch r
      → is_rendered key r.managed_resource_refs ≡ is_some (rendered key r.resources)
  is_rendered-RefsMatch key r h =
      ap (is_rendered key) (sym h.refs) ∙ is_rendered-refs key r.resources

is_rendered-with_key :
    (key : String) (ms : List ManagedResource) → is_rendered key ms ≡ is_nonempty (with_key key ms)
is_rendered-with_key key [] = refl
is_rendered-with_key key (m ∷ ms) = let rec = is_rendered-with_key key ms in ground arith

pub is_rendered-orphans :
    (key : String) (current previous : List ManagedResource)
    → is_rendered key (orphans current previous)
      ≡ (not (is_rendered key current) && is_rendered key previous)
is_rendered-orphans key current previous =
    let kept = with_key-orphans key current previous in
    let before = is_rendered-with_key key previous in
    let after = is_rendered-with_key key (orphans current previous) in
    after ∙ ap is_nonempty kept ∙ rw before (ground arith)

module _ {F : Type 0} ⦃fl : Float F⦄ where
  pub render_with-RefsMatch :
      (b : Backend) (policy : AdaptivePolicy) → RefsMatch {F = F} (render_with b policy)
  unfolding render_with
  render_with-RefsMatch istio policy = render-RefsMatch policy
  render_with-RefsMatch cilium policy = cilium_render-RefsMatch policy

  -- A reconcile whose applications are all taken leaves under each kind and name the last resource
  -- rendered for it. Where none is rendered, the object of a resource that the status names is gone
  -- if the server takes its deletion, and every other object is as before.
  pub converges :
      (a : Answers) (b : Backend) (policy : AdaptivePolicy) (objects : Dict (Resource F))
      (key : String)
      → (apply_all a (render_with b policy).resources objects).1 ≡ none
      → lookup key (
          prune_orphaned_resources a policy
            (render_with {F = F} b policy).managed_resource_refs
            (apply_all a (render_with b policy).resources objects).0)
        ≡ or_else (rendered key (render_with b policy).resources) (
            if is_rendered key policy.status.managed_resources && a.deletes key
            then none
            else lookup key objects)
  unfolding prune_orphaned_resources
  converges a b policy objects key all =
      let res = render_with {F = F} b policy in
      let put = lookup-apply_all a res.resources objects key all in
      let gone =
        lookup-delete_all a (orphans res.managed_resource_refs policy.status.managed_resources)
          (apply_all a res.resources objects).0 key in
      let which =
        is_rendered-orphans key res.managed_resource_refs policy.status.managed_resources in
      let refs = is_rendered-RefsMatch key res (render_with-RefsMatch b policy) in
      gone ∙ rw (which, refs, put) (ground arith)
