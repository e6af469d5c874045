-- ===== src/System/Watched/Judged.antt =====
-- The signals that the reconciles take from their pollers.
use shedpilot.Common.{
  String, ap, subst, sym, ◌∙◌, ◌≡◌, refl, true, Option, none, some, List, ℕ, Bool-cases, inl, inr,
  nat_eq,
}
use shedpilot.Common.Dict.{Dict, lookup}
use shedpilot.Common.Float.{Float}
use shedpilot.Api.{AdaptivePolicy, AdaptivePolicySpec}
use shedpilot.Trigger.Types.{Signals}
use shedpilot.Poller.Config.{with_defaults}
use shedpilot.Poller.Tick.{is_breaching}
use shedpilot.Renderer.Detect.{Backend, detect_and_build}
use shedpilot.Renderer.Result.{Resource}
use shedpilot.Rtds.Client.{Client}
use shedpilot.Rtds.Server.{World}
use shedpilot.Controller.Detection.{poller_config}
use shedpilot.Controller.Pollers.Current.{Runs}
use shedpilot.Controller.Validate.{validate_policy}
use shedpilot.Controller.Manager.{Env, found, new_manager}
use shedpilot.Controller.Reconcile.{reconcile}
use shedpilot.Controller.Reconcile.Runs.{after_reconciles}
use shedpilot.Controller.Reconcile.Specs.{Since, reconcile-Runs}
use shedpilot.System.Watched.{
  Watch, waits_at, taken_at, Steady, reread, ensured, offered, reconcile_watched, tick_watched,
  Watched, begun, ticked, reconciled, gets_there,
}
use shedpilot.System.Watched.Grows.{Unmade, Grows-reconcile}
use shedpilot.System.Watched.Fed.{
  Fed, feeds_after-Fed, taken_at-Fed, overwritten-Fed, tick-Fed, Steady-Renews,
}

module _ {F : Type 0} ⦃fl : Float F⦄ where
  record Sound (s : Watch F) : Type 0 where
    unmade : Unmade s.manager.pollers
    fed : (id : ℕ) → Fed (s.manager.pollers.made id) (s.feeds id)

  ensured-Fed :
      (env : Env F) (key : String) (s : Watch F)
      → Sound s
      → (id : ℕ)
      → Fed ((reconcile env key s.manager).manager.pollers.made id) (ensured env key s id)
  ensured-Fed env key s h id =
      feeds_after-Fed env.fetched s.manager.pollers _ s.feeds id
        (Grows-reconcile env key s.manager h.unmade) (h.fed id)

  reconcile_watched-Sound :
      (env : Env F) (key : String) (s : Watch F)
      → Steady env
      → Sound s
      → Sound (reconcile_watched env key s)
  unfolding reconcile_watched
  reconcile_watched-Sound env key s steady h =
      let w = (reconcile env key s.manager).manager.pollers in
      let g = Grows-reconcile env key s.manager h.unmade in
      let fed = ensured-Fed env key s h in
      elim (Bool-cases (gets_there env.cluster env.fetched)) [
        | inl e ↦ rw e (record {
          unmade = g.beyond;
          fed = λ id.
              overwritten-Fed env.fetched (reread env key s.manager env.fetched) s.manager.pollers w
                (taken_at (lookup key w.pollers) (ensured env key s)) id g
                (Steady-Renews env key s.manager steady)
                (taken_at-Fed (lookup key w.pollers) (w.made id) (ensured env key s) id (fed id));
        })
        | inr e ↦ rw e (record { unmade = g.beyond; fed = fed })
      ]

  tick_watched-Sound :
      (id : ℕ) (scrape : Option (Signals F)) (s : Watch F)
      → Sound s
      → Sound (tick_watched id scrape s)
  unfolding tick_watched
  tick_watched-Sound id scrape s h = record {
    unmade = h.unmade;
    fed = λ i. elim (Bool-cases (nat_eq i id)) [
      | inl e ↦ rw e (tick-Fed (s.manager.pollers.made i) scrape (s.feeds i) (h.fed i))
      | inr e ↦ rw e (h.fed i)
    ];
  }

  -- The poller whose signal a reconcile takes: it runs for the policy, with the policy's detection
  -- settings, and the signal breaches the policy's triggers exactly if its flag is on.
  pub record Judged (env : Env F) (key : String) (policy : AdaptivePolicy) (sig : Signals F)
      (s : Watch F) : Type 0 where
    pub id : ℕ
    pub known : lookup key (reconcile env key s.manager).manager.pollers.pollers ≡ some id
    pub running : (reconcile env key s.manager).manager.pollers.runs id ≡ true
    pub settings : (ensured env key s id).cfg ≡ with_defaults (poller_config policy.spec.detection)
    pub breaches : is_breaching policy.spec.triggers sig ≡ (ensured env key s id).state.firing

  Judged-poller :
      (env : Env F) (key : String) (policy : AdaptivePolicy) (sig : Signals F) (s : Watch F)
      → Sound s
      → Runs key policy (reconcile env key s.manager).manager.pollers
      → env.polled ≡ offered env key s
      → env.polled ≡ some sig
      → Judged env key policy sig s
  unfolding offered waits_at Fed
  Judged-poller env key policy sig s h r waiting taken =
      let o = r.origin in
      let q = o.policy in
      let p = ensured env key s r.id in
      let fed : Fed (some (record { policy = q; config = poller_config q.spec.detection })) p =
        subst (λ x. Fed x p) o.made (ensured-Fed env key s h r.id) in
      let out : p.out ≡ some sig =
        ap (λ t. waits_at t (ensured env key s)) (sym r.known) ∙ sym waiting ∙ taken in
      record {
        id = r.id;
        known = r.known;
        running = r.running;
        settings =
            fed.1
            ∙ ap (λ (x : AdaptivePolicySpec). with_defaults (poller_config x.detection)) o.holds;
        breaches =
            ap (λ ts. is_breaching ts sig)
              (sym (fed.0 ∙ ap (λ (x : AdaptivePolicySpec). x.triggers) o.holds))
            ∙ fed.2.agrees sig out;
      }

  module _ (client : Option Client) (world : World) (objects : Dict (Resource F)) where
    Watched-Sound :
        (runs : List (Env F × String)) (s : Watch F)
        → Watched client world objects runs s
        → Sound s × (s.manager ≡ after_reconciles (new_manager client world objects) runs)
    unfolding new_manager reconcile_watched tick_watched Fed
    Watched-Sound runs s (begun feeds) =
        (record { unmade = λ id young. refl; fed = λ id. tt }, refl)
    Watched-Sound runs s (ticked _ id scrape t before on) =
        let rec = Watched-Sound runs t before in (tick_watched-Sound id scrape t rec.0, rec.1)
    Watched-Sound runs s (reconciled older env key t before waiting steady) =
        let rec = Watched-Sound older t before in
        (
          reconcile_watched-Sound env key t steady rec.0,
          ap (λ m. (reconcile env key m).manager) rec.1,
        )

    -- In a run of reconciles, of whatever policies, and of ticks of the pollers that they
    -- start and stop: the signal that a reconcile takes from its poller comes from one that
    -- runs with the policy's current detection settings, and breaches the policy's current
    -- triggers exactly if that poller's flag is on, so no signal of an old spec or of a state
    -- that the poller has left is evaluated. The policy is valid, its mesh is detected, the
    -- same generation has meant the same spec since the key was last read as gone, and no
    -- reconcile of the run reads other triggers when it reads its policy again.
    pub polled-Judged :
        (runs : List (Env F × String)) (s : Watch F) (env : Env F) (key : String)
        (policy : AdaptivePolicy) (b : Backend) (sig : Signals F)
        → Watched client world objects runs s
        → env.fetched ≡ found policy
        → validate_policy policy ≡ none
        → detect_and_build env.cluster policy ≡ some b
        → Since (λ q. q.generation ≡ policy.generation → q.spec ≡ policy.spec) key runs
        → env.polled ≡ offered env key s
        → env.polled ≡ some sig
        → Judged env key policy sig s
    polled-Judged runs s env key policy b sig path read accepted meshed since waiting taken =
        let (sound, same) = Watched-Sound runs s path in
        let r =
          reconcile-Runs client world objects runs env key policy b read accepted meshed since in
        Judged-poller env key policy sig s sound
          (subst (λ m. Runs key policy (reconcile env key m).manager.pollers) (sym same) r) waiting
          taken
