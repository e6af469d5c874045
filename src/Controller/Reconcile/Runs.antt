-- ===== src/Controller/Reconcile/Runs.antt =====
-- Sequences of reconciles, of whatever policies.
use shedpilot.Common.{◌≡◌, Bool, refl, String, Option, none, some, List, [], ◌∷◌}
use shedpilot.Common.Float.{Float}
use shedpilot.Api.{AdaptivePolicy}
use shedpilot.Renderer.Detect.{Backend, detect_and_build}
use shedpilot.Controller.Pollers.{Pollers, ensure_poller, forget}
use shedpilot.Controller.Pollers.OnePerKey.{
  OnePerKey, ensure_poller-OnePerKey, forget-OnePerKey, none-OnePerKey,
}
use shedpilot.Controller.Validate.{Switched, validate_policy}
use shedpilot.Common.Dict.{Dict}
use shedpilot.Rtds.Client.{Client, RuntimeValue}
use shedpilot.Rtds.Server.{World}
use shedpilot.Controller.Manager.{
  new_manager, Manager, Fetched, found, gone, unreachable, Env, Done, Collected, current,
  with_fetched,
}
use shedpilot.Renderer.Result.{Resource, when_some}
use shedpilot.Controller.Deliver.{render_with}
use shedpilot.Controller.Reconcile.{
  reconcile, reconcile_found, act, deliver, finish, forgotten, degraded, delivered, switching,
  applied, collect,
}

-- The manager after some reconciles, the newest first, each with its key and what it met.
module _ {F : Type 0} ⦃fl : Float F⦄ where
  abbrev pub after_reconciles : Manager F → List (Env F × String) → Manager F
  after_reconciles m [] = m
  after_reconciles m (r ∷ older) = (reconcile r.0 r.1 (after_reconciles m older)).manager

module _ {F : Type 0} (P : Done F → Type 0) where
  pub with_fetched-keeps :
      (x : Fetched) (f : AdaptivePolicy → Done F) (missing failing : Done F)
      → ((policy : AdaptivePolicy) → P (f policy))
      → P missing
      → P failing
      → P (with_fetched x f missing failing)
  with_fetched-keeps (found policy) f missing failing h j k = h policy
  with_fetched-keeps gone f missing failing h j k = j
  with_fetched-keeps unreachable f missing failing h j k = k

  pub when_some-all {ℓ} :
      {A : Type ℓ} (o : Option A) (done : Done F) (f : A → Done F)
      → P done
      → ((a : A) → P (f a))
      → P (when_some o done f)
  when_some-all none done f h k = h
  when_some-all (some a) done f h k = k a

-- A property of the pollers, the client and the sidecars that the steps which change them keep.
pub record Kept (F : Type 0) ⦃fl : Float F⦄ (P : Pollers → Option Client → World → Type 0)
    : Type 0 where
  pub ensured :
      (key : String) (policy : AdaptivePolicy) (w : Pollers) (c : Option Client) (world : World)
      → P w c world
      → P (ensure_poller key policy w) c world
  pub forgot :
      (key : String) (w : Pollers) (c : Option Client) (world : World)
      → P w c world
      → P (forget key w) c world
  pub pushed :
      (switched : Bool) (b : Backend) (policy : AdaptivePolicy)
      (layers : Dict (Dict (RuntimeValue F))) (w : Pollers) (c : Option Client) (world : World)
      → P w c world
      → P w
          (delivered switched b policy layers c world).0
          (delivered switched b policy layers c world).1

module _ {F : Type 0} ⦃fl : Float F⦄ (P : Pollers → Option Client → World → Type 0)
    (kept : Kept F P) where
  abbrev Holds : Manager F → Type 0
  Holds m = P m.pollers m.rtds_client m.world

  abbrev HoldsOf : Done F → Type 0
  HoldsOf done = Holds done.manager

  deliver-Holds :
      (env : Env F) (key before : String) (b : Backend) (seen : Collected F) (sw : Switched)
      (policy : AdaptivePolicy) (m : Manager F)
      → Holds m
      → HoldsOf (deliver env key before b seen sw policy m)
  unfolding deliver degraded finish
  deliver-Holds env key before b seen sw policy m h =
      when_some-all HoldsOf (applied sw.switched env.answers (render_with b policy) m.objects).1 _ _
        (kept.pushed sw.switched b policy (render_with b policy).rtds_layers m.pollers m.rtds_client
          m.world h)
        (λ error. h)

  act-Holds :
      (env : Env F) (key : String) (b : Backend) (policy : AdaptivePolicy) (m : Manager F)
      → Holds m
      → HoldsOf (act env key b policy m)
  unfolding act
  act-Holds env key b policy m h =
      let sw = switching env key policy m in
      let ensured = kept.ensured key policy m.pollers m.rtds_client m.world h in
      with_fetched-keeps HoldsOf (current sw.switched env.refetched policy) _ _ _
        (λ p.
          deliver-Holds env key policy.spec.active_profile b (collect env policy m.snapshots) sw p _
            ensured)
        ensured ensured

  pub reconcile-Holds :
      (env : Env F) (key : String) (m : Manager F) → Holds m → HoldsOf (reconcile env key m)
  unfolding reconcile reconcile_found degraded forgotten
  reconcile-Holds env key m h =
      with_fetched-keeps HoldsOf env.fetched _ _ _
        (λ policy.
          when_some-all HoldsOf (validate_policy policy) _ _
            (when_some-all HoldsOf (detect_and_build env.cluster policy) _ _ h
              (λ b. act-Holds env key b policy m h))
            (λ i. h))
        (kept.forgot key m.pollers m.rtds_client m.world h) h

  reconciles-Holds :
      (m : Manager F) (runs : List (Env F × String)) → Holds m → Holds (after_reconciles m runs)
  reconciles-Holds m [] h = h
  reconciles-Holds m (r ∷ older) h =
      reconcile-Holds r.0 r.1 (after_reconciles m older) (reconciles-Holds m older h)

module _ {F : Type 0} ⦃fl : Float F⦄ where
  ordered : Kept F (λ w c world. OnePerKey w)
  ordered = record {
    ensured = λ key policy w c world h. ensure_poller-OnePerKey key policy w h;
    forgot = λ key w c world h. forget-OnePerKey key w h;
    pushed = λ switched b policy layers w c world h. h;
  }

  quiet : (start : World) → Kept F (λ w c world. (c ≡ none) × (world ≡ start))
  unfolding delivered
  quiet start = record {
    ensured = λ key policy w c world h. h;
    forgot = λ key w c world h. h;
    pushed = λ switched b policy layers w c world h. rw h.0 (refl, h.1);
  }

  -- After whatever reconciles of a new reconciler, whatever they meet: the goroutines that run are those of
  -- the pollers in the map, one for each policy; a restart or a deletion leaves none behind, and stops
  -- no other.
  pub after_reconciles-OnePerKey :
      (client : Option Client) (world : World) (objects : Dict (Resource F))
      (runs : List (Env F × String))
      → OnePerKey (after_reconciles (new_manager client world objects) runs).pollers
  unfolding new_manager
  after_reconciles-OnePerKey client world objects runs =
      reconciles-Holds _ ordered (new_manager client world objects) runs none-OnePerKey

  -- The sidecars of a reconciler without a client receive nothing.
  pub world-after_reconciles :
      (world : World) (objects : Dict (Resource F)) (runs : List (Env F × String))
      → (after_reconciles (new_manager none world objects) runs).world ≡ world
  unfolding new_manager
  world-after_reconciles world objects runs =
      (reconciles-Holds _ (quiet world) (new_manager none world objects) runs (refl, refl)).1
