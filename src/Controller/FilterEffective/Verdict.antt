-- ===== src/Controller/FilterEffective/Verdict.antt =====
-- What the FilterEffective condition says after a history of observations.
use shedpilot.Common.{
  String, ap, ◌∙◌, ◌≡◌, refl, Bool, Option, none, some, List, [], ◌∷◌, ℕ, suc, ◌^◌, ◌<◌, ◌≤◌, ◌+◌,
  ℤ, pos, leb, inc-pos, length, arith, Bool-cases, inl, inr, if◌then◌else◌, leb_ℤ,
}
use shedpilot.Common.Float.{Float}
use shedpilot.Api.{AdaptivePolicy, Condition, condition_filter_effective}
use shedpilot.Trigger.Types.{Signals, State}
use shedpilot.Controller.Conditions.{status_at, status_at-set_condition}
use shedpilot.Controller.FilterEffective.{
  watched, inactive, zero_ejections, ejections_observed, filter_is_ejecting, inactive_count, judge,
  observe_filter,
}

-- A reconcile of the policy, as the condition sees it.
pub record Observation (F : Type 0) : Type 0 where
  pub time : ℕ
  pub policy : AdaptivePolicy
  pub signals : Signals F
  pub available : Bool

-- The status of the condition.
abbrev pub status_of : List Condition → Option String
status_of = status_at condition_filter_effective

module _ {F : Type 0} ⦃fl : Float F⦄ where
  -- How many of the newest watched observations in a row were inactive.
  abbrev pub streak : List (Observation F) → ℕ
  streak [] = 0
  streak (o ∷ older) =
      let before = streak older in
      if watched o.policy o.available
      then if inactive o.policy o.signals then suc before else 0
      else before

  -- False after three inactive observations in a row, true after an ejection, else as before.
  abbrev pub verdict : List (Observation F) → Option String
  verdict [] = none
  verdict (o ∷ older) =
      let before = verdict older in
      if watched o.policy o.available
      then if leb 3 (streak (o ∷ older))
        then some "False"
        else if filter_is_ejecting o.signals
        then some "True"
        else before
      else before

  streak-length : (history : List (Observation F)) → streak history ≤ length history
  streak-length [] = omega arith
  streak-length (o ∷ older) = let rec = streak-length older in ground arith

  -- One observation counts on.
  pub count-observe_filter :
      (o : Observation F) (older : List (Observation F)) (st : State) (conditions : List Condition)
      → st.consecutive_filter_inactive ≡ pos (streak older)
      → length older + 1 < 2 ^ 31
      → (observe_filter o.time o.policy o.signals o.available st
          conditions).0.consecutive_filter_inactive
        ≡ pos (streak (o ∷ older))
  unfolding observe_filter
  count-observe_filter o older st conditions counted h =
      let bound = streak-length older in
      let next = inc-pos 31 (streak older) in
      elim (Bool-cases (watched o.policy o.available)) [
        | inl w ↦ elim (Bool-cases (inactive o.policy o.signals)) [
          | inl i ↦ rw (w, i, counted) (next (omega (arith, bound, h)) ∙ ap pos (omega arith))
          | inr i ↦ rw (w, i) refl
        ]
        | inr w ↦ rw w counted
      ]

  status_of-judge :
      (now : ℕ) (policy : AdaptivePolicy) (signals : Signals F) (count : ℤ)
      (conditions : List Condition)
      → status_of (judge now policy signals count conditions) ≡ (
          if leb_ℤ (pos 3) count
          then some "False"
          else if filter_is_ejecting signals
          then some "True"
          else status_of conditions)
  unfolding judge zero_ejections ejections_observed
  status_of-judge now policy signals count conditions =
      let set =
        λ (c : Condition). status_at-set_condition now c conditions condition_filter_effective in
      elim (Bool-cases (leb_ℤ (pos 3) count)) [
        | inl e ↦ rw e (set (zero_ejections policy signals count))
        | inr e ↦ elim (Bool-cases (filter_is_ejecting signals)) [
          | inl f ↦ rw (e, f) (set (ejections_observed policy signals))
          | inr f ↦ rw (e, f) refl
        ]
      ]

  -- One observation takes the verdict on.
  pub status_of-observe_filter :
      (o : Observation F) (older : List (Observation F)) (st : State) (conditions : List Condition)
      → st.consecutive_filter_inactive ≡ pos (streak older)
      → status_of conditions ≡ verdict older
      → length older + 1 < 2 ^ 31
      → status_of (observe_filter o.time o.policy o.signals o.available st conditions).1
        ≡ verdict (o ∷ older)
  unfolding observe_filter
  status_of-observe_filter o older st conditions count said h =
      let counted = count-observe_filter o older st conditions count h in
      let judged =
        status_of-judge o.time o.policy o.signals (inactive_count o.policy o.signals st)
          conditions in
      elim (Bool-cases (watched o.policy o.available)) [
        | inl w ↦ rw w (judged ∙ rw (rw w at counted, said) (ground arith))
        | inr w ↦ rw w said
      ]
