-- ===== src/Controller/Reconcile/Verdicts.antt =====
-- What the FilterEffective condition says over sequences of reconciles.
use shedpilot.Common.{
  String, ap, arith, ◌∙◌, ◌≡◌, refl, false, Option, none, List, [], ◌∷◌, ℕ, ◌==◌, if◌then◌else◌,
  ◌+◌, ◌<◌, ◌^◌, pos, length, eq_iff,
}
use shedpilot.Common.Float.{Float}
use shedpilot.Api.{AdaptivePolicy, Condition, condition_filter_effective}
use shedpilot.Trigger.Types.{State}
use shedpilot.Renderer.Detect.{Backend}
use shedpilot.Controller.Conditions.{set_condition, status_at-set_condition}
use shedpilot.Controller.FilterEffective.{observe_filter}
use shedpilot.Controller.FilterEffective.Verdict.{
  Observation, status_of, streak, verdict, count-observe_filter, status_of-observe_filter,
}
use shedpilot.Controller.Deliver.{render_with}
use shedpilot.Controller.Report.{Findings, report, refreshed, noted, collection, reconciled}
use shedpilot.Controller.Manager.{Manager, Env, Done, state_of}
use shedpilot.Controller.Reconcile.{reconcile, switching, delivered, finish, findings, collect}
use shedpilot.Controller.Reconcile.Acts.{Acts, applied_to, reconcile-finish}
use shedpilot.Controller.Reconcile.Memory.{state_at, state-other, inserted}
use shedpilot.Controller.Reconcile.Short.{shown, inactive-switching, Short, Short-Leaves}
use shedpilot.Controller.Reconcile.Recovers.{conditions-noted, status_at-collection}
use shedpilot.Controller.Reconcile.Runs.{after_reconciles}

module _ {F : Type 0} ⦃fl : Float F⦄ where
  -- What the last step of a reconcile does with an observation.
  abbrev pub observation : Env F → AdaptivePolicy → AdaptivePolicy → Manager F → Observation F
  observation env read policy m =
      let seen = collect env read m.snapshots in
      record { time = env.now; policy = policy; signals = seen.signals; available = seen.available }

  -- The conditions on which the last step of a reconcile judges the filter.
  collected : ℕ → AdaptivePolicy → Findings F → List Condition
  collected now policy f = set_condition now (collection f.available policy.generation) (
      set_condition now (reconciled policy f)
        (noted now f.before f.rtds_connected f.switched f.decision
          (refreshed now policy f)).conditions)

  status_of-collected :
      (now : ℕ) (policy : AdaptivePolicy) (f : Findings F)
      → status_of (collected now policy f) ≡ status_of policy.status.conditions
  unfolding collected refreshed reconciled
  status_of-collected now policy f =
      let status =
        noted now f.before f.rtds_connected f.switched f.decision (refreshed now policy f) in
      let ready = set_condition now (reconciled policy f) status.conditions in
      status_at-collection now f.available policy.generation ready condition_filter_effective refl
      ∙ status_at-set_condition now (reconciled policy f) status.conditions
          condition_filter_effective
      ∙ ap status_of (
          conditions-noted now f.before f.rtds_connected f.switched f.decision
            (refreshed now policy f))

  report-observe_filter :
      (now : ℕ) (policy : AdaptivePolicy) (f : Findings F) (st : State)
      → let o = observe_filter now policy f.signals f.available st (collected now policy f) in
        ((report now policy f st).0 ≡ o.0) × ((report now policy f st).1.conditions ≡ o.1)
  unfolding report collected
  report-observe_filter now policy f st = (refl, refl)

  module _ (key : String) (m : Manager F) where
    -- What the statuses that were sent say of a policy.
    abbrev pub said : List (Env F × String) → Option String
    said [] = none
    said (r ∷ older) =
        let before = said older in
        if r.1 == key
        then shown (reconcile r.0 r.1 (after_reconciles m older)).status before
        else before

    -- The observations of the reconciles of a policy that get to their last step. The policy that is read
    -- has the condition that was sent last.
    pub data Observed : List (Env F × String) → List (Observation F) → Type 0 where
      at_first : Observed [] []
      observed :
          (runs : List (Env F × String)) (history : List (Observation F)) (env : Env F)
          (b : Backend) (read policy : AdaptivePolicy)
          → Observed runs history
          → Acts env key (after_reconciles m runs) b read policy
          → status_of policy.status.conditions ≡ said runs
          → Observed
              ((env, key) ∷ runs)
              (observation env read policy (after_reconciles m runs) ∷ history)
      cut_short :
          (runs : List (Env F × String)) (history : List (Observation F)) (env : Env F)
          → Observed runs history
          → Short env key (after_reconciles m runs) (said runs)
          → Observed ((env, key) ∷ runs) history
      passed_by :
          (runs : List (Env F × String)) (history : List (Observation F)) (env : Env F)
          (other : String)
          → Observed runs history
          → (other == key) ≡ false
          → Observed ((env, other) ∷ runs) history

  -- What a reconcile that acts leaves of the count, and what it says.
  reconcile-observe_filter :
      (env : Env F) (key : String) (m : Manager F) (b : Backend) (read policy : AdaptivePolicy)
      (before : Option String) (older : List (Observation F))
      → Acts env key m b read policy
      → (state_at key m).consecutive_filter_inactive ≡ pos (streak older)
      → status_of policy.status.conditions ≡ verdict older
      → length older + 1 < 2 ^ 31
      → let o = observation env read policy m in
        ((state_at key (reconcile env key m).manager).consecutive_filter_inactive
          ≡ pos (streak (o ∷ older)))
        × (shown (reconcile env key m).status before ≡ verdict (o ∷ older))
  unfolding finish findings
  reconcile-observe_filter env key m b read policy before older h count said fits =
      let o = observation env read policy m in
      let sw = switching env key read m in
      let out =
        delivered {F = F} sw.switched b policy (render_with b policy).rtds_layers m.rtds_client
          m.world in
      let f = findings read.spec.active_profile b (collect env read m.snapshots) sw policy out.2 in
      let ended = reconcile-finish env key m b read policy h in
      let r = report-observe_filter env.now policy f sw.state in
      let conditions = collected env.now policy f in
      let counted = inactive-switching env key read m ∙ count in
      (
        ap (λ (done : Done F). (state_at key done.manager).consecutive_filter_inactive) ended
            ∙ ap (λ (st : State). st.consecutive_filter_inactive)
                (inserted key _ (applied_to env key m b read policy))
            ∙ ap (λ (st : State). st.consecutive_filter_inactive) r.0
            ∙ count-observe_filter o older sw.state conditions counted fits,
        ap (λ (done : Done F). shown done.status before) ended
            ∙ ap status_of r.1
            ∙ status_of-observe_filter o older sw.state conditions counted
                (status_of-collected env.now policy f ∙ said) fits,
      )

  module _ (key : String) (m : Manager F)
      (fresh : (state_at key m).consecutive_filter_inactive ≡ pos 0) where
    told :
        (runs : List (Env F × String)) (history : List (Observation F))
        → Observed key m runs history
        → length history < 2 ^ 31
        → ((state_at key (after_reconciles m runs)).consecutive_filter_inactive
            ≡ pos (streak history))
          × (said key m runs ≡ verdict history)
    told runs history at_first h = (fresh, refl)
    told runs history (observed older seen env b read policy before acts back) h =
        let rec = told older seen before (omega arith) in
        let next =
          reconcile-observe_filter env key (after_reconciles m older) b read policy
            (said key m older) seen acts rec.0 (back ∙ rec.1) (omega arith) in
        (next.0, rw ((eq_iff key key).1 refl) next.1)
    told runs history (cut_short older seen env before short) h =
        let rec = told older seen before h in
        let left = Short-Leaves env key (after_reconciles m older) (said key m older) short in
        (left.count ∙ rec.0, rw ((eq_iff key key).1 refl) (left.says ∙ rec.1))
    told runs history (passed_by older seen env other before away) h =
        let rec = told older seen before h in
        let kept = ap state_of (state-other env key other (after_reconciles m older) away) in
        (ap (λ (st : State). st.consecutive_filter_inactive) kept ∙ rec.0, rw away rec.1)

    -- Over reconciles of whatever policies, what the statuses that were sent for one policy
    -- say of FilterEffective is what its observations show: False once the filter has been
    -- inactive at three watched observations in a row, True when it ejects at a watched one,
    -- else as before. An observation is a reconcile of the policy that gets to its last step;
    -- it is watched if signals were collected and the policy has admission control and is not
    -- dry. A reconcile that ends before, because the policy cannot be read or read again, is
    -- refused, has no mesh or is not applied in full, changes nothing of this. At the start
    -- the reconciler has counted nothing and nothing was said; the policy is never read as
    -- gone, it is read with the condition that was sent last, and the observations are fewer
    -- than 2^31.
    pub said-verdict :
        (runs : List (Env F × String)) (history : List (Observation F))
        → Observed key m runs history
        → length history < 2 ^ 31
        → said key m runs ≡ verdict history
    said-verdict runs history seen h = (told runs history seen h).1
