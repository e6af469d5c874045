-- ===== src/Trigger/Evaluate/Leaves.antt =====
-- The count of the FilterEffective condition, which stands in the same state as the counters.
use shedpilot.Common.{
  ◌∙◌, ◌≡◌, refl, String, none, Option, List, [], ◌∷◌, ℕ, arith, Bool-cases, inl, inr,
}
use shedpilot.Common.Float.{Float}
use shedpilot.Api.{AdaptivePolicy, TriggerConfig}
use shedpilot.Trigger.Types.{Signals, Decision, State}
use shedpilot.Trigger.Evaluate.{loop, evaluate, skipped}
use shedpilot.Trigger.Evaluate.Ready.{ready, passed, fired, closest_of}
use shedpilot.Trigger.Evaluate.Firing.{loop-cons}

module _ {F : Type 0} ⦃fl : Float F⦄ where
  inactive-passed :
      (sig : Signals F) (current : String) (now : ℕ) (t : TriggerConfig) (st : State)
      → (passed sig current now t st).consecutive_filter_inactive ≡ st.consecutive_filter_inactive
  unfolding passed
  inactive-passed sig current now t st = elim (Bool-cases (skipped current now t st)) [
    | inl s ↦ rw s refl
    | inr s ↦ rw s refl
  ]

  inactive-fired :
      (sig : Signals F) (current : String) (now : ℕ) (t : TriggerConfig) (st : State)
      → (fired sig current now t st).consecutive_filter_inactive ≡ st.consecutive_filter_inactive
  unfolding fired
  inactive-fired sig current now t st = refl

  inactive-loop :
      (sig : Signals F) (current : String) (now : ℕ) (ts : List TriggerConfig)
      (closest : Option Decision) (st : State)
      → (loop sig current now ts closest st).1.consecutive_filter_inactive
        ≡ st.consecutive_filter_inactive
  unfolding loop
  inactive-loop sig current now [] closest st = refl
  inactive-loop sig current now (t ∷ ts) closest st =
      let st' = passed sig current now t st in
      let rec = inactive-loop sig current now ts (closest_of sig current now t closest st) st' in
      rw (loop-cons sig current now t ts closest st)
        (elim (Bool-cases (ready sig current now t st)) [
          | inl r ↦ rw r (inactive-fired sig current now t st)
          | inr r ↦ rw r (rec ∙ inactive-passed sig current now t st)
        ])

  -- An evaluation leaves the count of the filter alone.
  pub inactive-evaluate :
      (now : ℕ) (policy : AdaptivePolicy) (sig : Signals F) (st : State)
      → (evaluate now policy sig st).1.consecutive_filter_inactive ≡ st.consecutive_filter_inactive
  unfolding evaluate
  inactive-evaluate now policy sig st =
      let looped = inactive-loop sig policy.spec.active_profile now policy.spec.triggers none st in
      ground arith
