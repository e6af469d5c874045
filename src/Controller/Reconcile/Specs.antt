-- ===== src/Controller/Reconcile/Specs.antt =====
-- The policies that the running pollers are made from, over sequences of reconciles.
use shedpilot.Common.{
  String, ◌≡◌, refl, false, Option, none, some, List, [], ◌∷◌, ◌==◌, Bool-cases, inl, inr, eq_iff,
  subst, sym, if◌then◌else◌,
}
use shedpilot.Common.Dict.{Dict}
use shedpilot.Common.Float.{Float}
use shedpilot.Api.{AdaptivePolicy}
use shedpilot.Renderer.Result.{Resource}
use shedpilot.Renderer.Detect.{Backend, detect_and_build}
use shedpilot.Rtds.Client.{Client}
use shedpilot.Rtds.Server.{World}
use shedpilot.Controller.Pollers.{ensure_poller}
use shedpilot.Controller.Pollers.OnePerKey.{OnePerKey}
use shedpilot.Controller.Pollers.Current.{
  MadeFrom, Runs, ensure_poller-MadeFrom, ensure_poller-MadeFrom_other, ensure_poller-Runs,
  forget-MadeFrom, forget-MadeFrom_other, none-MadeFrom,
}
use shedpilot.Controller.Validate.{validate_policy}
use shedpilot.Controller.Manager.{
  Manager, Fetched, found, gone, unreachable, Env, Done, with_fetched, new_manager,
}
use shedpilot.Controller.Reconcile.{reconcile, reconcile_found, act, finish, forgotten, degraded}
use shedpilot.Controller.Reconcile.Cases.{act-cases, reconcile-cases}
use shedpilot.Controller.Reconcile.Runs.{
  after_reconciles, after_reconciles-OnePerKey, when_some-all,
}

-- A policy that is read has `Q`, as those before have that `rest` is about; one that is gone ends this.
abbrev pub Reads : Fetched → (AdaptivePolicy → Type 0) → Type 0 → Type 0
Reads (found policy) Q rest = Q policy × rest
Reads gone Q rest = Unit
Reads unreachable Q rest = rest

Reads-map :
    (x : Fetched) (Q : AdaptivePolicy → Type 0) (A B : Type 0) → (A → B) → Reads x Q A → Reads x Q B
Reads-map (found policy) Q A B f r = (r.0, f r.1)
Reads-map gone Q A B f r = tt
Reads-map unreachable Q A B f r = f r

module _ {F : Type 0} (P : Done F → Type 0) (Q : AdaptivePolicy → Type 0) (A : Type 0) where
  with_fetched-Reads :
      (x : Fetched) (f : AdaptivePolicy → Done F) (missing failing : Done F)
      → Reads x Q A
      → ((policy : AdaptivePolicy) → Q policy → A → P (f policy))
      → P missing
      → (A → P failing)
      → P (with_fetched x f missing failing)
  with_fetched-Reads (found policy) f missing failing r h j k = h policy r.0 r.1
  with_fetched-Reads gone f missing failing r h j k = j
  with_fetched-Reads unreachable f missing failing r h j k = k r

module _ {F : Type 0} ⦃fl : Float F⦄ where
  -- Every policy that was read under a key has `Q`, since a read found it gone. The newest is first.
  abbrev pub Since : (AdaptivePolicy → Type 0) → String → List (Env F × String) → Type 0
  Since Q key [] = Unit
  Since Q key (r ∷ older) =
      let rest = Since Q key older in if r.1 == key then Reads r.0.fetched Q rest else rest

  pub pollers-act :
      (env : Env F) (key : String) (b : Backend) (policy : AdaptivePolicy) (m : Manager F)
      → (act env key b policy m).manager.pollers ≡ ensure_poller key policy m.pollers
  unfolding finish
  pollers-act env key b policy m =
      act-cases (λ done. done.manager.pollers ≡ ensure_poller key policy m.pollers) env key b policy
        m (λ p objects. refl) (λ objects after failed status. refl)

  -- A reconcile that gets there ensures its poller, whatever comes of its other steps.
  pub pollers-reconcile :
      (env : Env F) (key : String) (m : Manager F) (policy : AdaptivePolicy) (b : Backend)
      → env.fetched ≡ found policy
      → validate_policy policy ≡ none
      → detect_and_build env.cluster policy ≡ some b
      → (reconcile env key m).manager.pollers ≡ ensure_poller key policy m.pollers
  unfolding reconcile reconcile_found
  pollers-reconcile env key m policy b read accepted meshed =
      rw (read, accepted, meshed) (pollers-act env key b policy m)

  act-MadeFrom :
      (Q : AdaptivePolicy → Type 0) (env : Env F) (key other : String) (b : Backend)
      (policy : AdaptivePolicy) (m : Manager F)
      → MadeFrom Q other (ensure_poller key policy m.pollers)
      → MadeFrom Q other (act env key b policy m).manager.pollers
  act-MadeFrom Q env key other b policy m h =
      subst (MadeFrom Q other) (sym (pollers-act env key b policy m)) h

  reconcile-MadeFrom :
      (Q : AdaptivePolicy → Type 0) (env : Env F) (key : String) (m : Manager F)
      → OnePerKey m.pollers
      → Reads env.fetched Q (MadeFrom Q key m.pollers)
      → MadeFrom Q key (reconcile env key m).manager.pollers
  unfolding reconcile reconcile_found degraded forgotten
  reconcile-MadeFrom Q env key m one reads =
      let P = λ (done : Done F). MadeFrom Q key done.manager.pollers in
      with_fetched-Reads P Q (MadeFrom Q key m.pollers) env.fetched _ _ _ reads
        (λ policy q h.
          when_some-all P (validate_policy policy) _ _
            (when_some-all P (detect_and_build env.cluster policy) _ _ h (λ b.
              act-MadeFrom Q env key key b policy m
                (ensure_poller-MadeFrom Q key policy m.pollers q h)))
            (λ i. h))
        (forget-MadeFrom Q key m.pollers one) (λ h. h)

  reconcile-MadeFrom_other :
      (Q : AdaptivePolicy → Type 0) (env : Env F) (key other : String) (m : Manager F)
      → OnePerKey m.pollers
      → (key == other) ≡ false
      → MadeFrom Q other m.pollers
      → MadeFrom Q other (reconcile env key m).manager.pollers
  unfolding forgotten
  reconcile-MadeFrom_other Q env key other m one away h =
      reconcile-cases (λ done. MadeFrom Q other done.manager.pollers) env key m
        (λ policy b read accepted meshed.
          act-MadeFrom Q env key other b policy m
            (ensure_poller-MadeFrom_other Q key other policy m.pollers one away h))
        (forget-MadeFrom_other Q key other m.pollers away h) (λ after failed status. h)

  module _ (client : Option Client) (world : World) (objects : Dict (Resource F)) where
    abbrev after : List (Env F × String) → Manager F
    after = after_reconciles (new_manager client world objects)

    after_reconciles-MadeFrom :
        (Q : AdaptivePolicy → Type 0) (key : String) (runs : List (Env F × String))
        → Since Q key runs
        → MadeFrom Q key (after runs).pollers
    unfolding new_manager
    after_reconciles-MadeFrom Q key [] since = none-MadeFrom Q key
    after_reconciles-MadeFrom Q key (r ∷ older) since =
        let rec = after_reconciles-MadeFrom Q key older in
        let m = after older in
        let one = after_reconciles-OnePerKey client world objects older in
        elim (Bool-cases (r.1 == key)) [
          | inl e ↦
              let reads : Reads r.0.fetched Q (Since Q key older) = rw e at since in
              subst (λ k. MadeFrom Q key (reconcile r.0 k m).manager.pollers)
                (sym ((eq_iff r.1 key).0 e))
                (reconcile-MadeFrom Q r.0 key m one (
                  Reads-map r.0.fetched Q (Since Q key older) (MadeFrom Q key m.pollers) rec reads))
          | inr e ↦
              let kept : Since Q key older = rw e at since in
              reconcile-MadeFrom_other Q r.0 r.1 key m one e (rec kept)
        ]

    -- After whatever reconciles of a new reconciler: a reconcile of a valid policy, with a
    -- mesh that is detected, leaves a poller running under its key that was made from the
    -- policy's spec as it was read, with the detection settings of that spec; provided that
    -- every policy read under the key with the same generation, since the last read that found
    -- it gone, had this spec.
    pub reconcile-Runs :
        (runs : List (Env F × String)) (env : Env F) (key : String) (policy : AdaptivePolicy)
        (b : Backend)
        → env.fetched ≡ found policy
        → validate_policy policy ≡ none
        → detect_and_build env.cluster policy ≡ some b
        → Since (λ q. q.generation ≡ policy.generation → q.spec ≡ policy.spec) key runs
        → Runs key policy (reconcile env key (after runs)).manager.pollers
    reconcile-Runs runs env key policy b read accepted meshed since =
        let one = after_reconciles-OnePerKey client world objects runs in
        let Q = λ (q : AdaptivePolicy). q.generation ≡ policy.generation → q.spec ≡ policy.spec in
        let old = after_reconciles-MadeFrom Q key runs since in
        subst (Runs key policy)
          (sym (pollers-reconcile env key (after runs) policy b read accepted meshed))
          (ensure_poller-Runs key policy (after runs).pollers one old)
