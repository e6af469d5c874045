-- ===== src/Controller/FilterEffective.antt =====
-- internal/controller/adaptivepolicy_controller.go: the FilterEffective condition, which tells whether the
-- installed filter processes traffic.
pub mod Verdict
use shedpilot.Common.{
  String, Bool, true, false, not, Option, none, some, List, ℕ, ◌+◌, ℤ, pos, pos_part, ltb_ℤ, leb_ℤ,
  inc, length, ◌==◌, ◌<>◌, ◌&&◌, ◌||◌, if◌then◌else◌,
}
use shedpilot.Common.Float.{Float}
use shedpilot.Api.{
  AdaptivePolicy, Condition, has_admission_control, is_dry_run, effective_success_rate_threshold,
  condition_filter_effective,
}
use shedpilot.Trigger.Types.{Signals, State}
use shedpilot.Renderer.Result.{or_zero}
use shedpilot.Controller.Conditions.{condition, set_condition}

-- Whether the condition is looked at; `available` is whether signals were collected.
unfoldable pub watched : AdaptivePolicy → Bool → Bool
watched policy available = has_admission_control policy && not (is_dry_run policy) && available

module _ {F : Type 0} ⦃fl : Float F⦄ where
  abbrev zero_f : F
  zero_f = fl.of_int (pos 0)

  unfoldable pub must_parse_percent : String → F
  must_parse_percent s = or_zero (fl.scan s)

  abbrev min_rps : AdaptivePolicy → F
  min_rps policy = elim policy.spec.admission_control [
    | none ↦ fl.of_int (pos 5)
    | some c ↦
        if ltb_ℤ (pos 0) c.min_requests_per_second
        then fl.of_int c.min_requests_per_second
        else fl.of_int (pos 5)
  ]

  abbrev threshold : AdaptivePolicy → F
  threshold policy =
      fl.div (must_parse_percent (effective_success_rate_threshold policy)) (fl.of_int (pos 100))

  unfoldable pub should_be_shedding : AdaptivePolicy → Signals F → Bool
  should_be_shedding policy signals =
      fl.lt (min_rps policy) signals.rps && fl.lt signals.success_rate (threshold policy)

  unfoldable pub filter_is_ejecting : Signals F → Bool
  filter_is_ejecting signals = fl.lt zero_f signals.shed_rejected_rps

  unfoldable pub inactive : AdaptivePolicy → Signals F → Bool
  unfolding should_be_shedding filter_is_ejecting
  inactive policy signals = should_be_shedding policy signals && not (filter_is_ejecting signals)

  unfoldable pub zero_ejections : AdaptivePolicy → Signals F → ℤ → Condition
  zero_ejections policy signals count =
      condition condition_filter_effective "False" "ZeroEjections"
        ("admission_control has rejected 0 requests over "
          <> fl.decimal count
          <> " consecutive intervals while successRate="
          <> fl.fixed 3 signals.success_rate
          <> " is below threshold="
          <> fl.fixed 3 (threshold policy)
          <> " and RPS="
          <> fl.fixed 0 signals.rps
          <> " exceeds minimum="
          <> fl.fixed 0 (min_rps policy)
          <> ". The filter may not be intercepting traffic. Verify with: kubectl exec -n "
          <> policy.namespace
          <> " <pod> -c istio-proxy -- curl -s localhost:15000/stats | grep admission_control")
        policy.generation

  unfoldable pub ejections_observed : AdaptivePolicy → Signals F → Condition
  ejections_observed policy signals =
      condition condition_filter_effective "True" "EjectionsObserved"
        ("admission_control is actively rejecting requests ("
          <> fl.fixed 1 signals.shed_rejected_rps
          <> "/s)")
        policy.generation

  -- ConsecutiveFilterInactive after the signals.
  abbrev pub inactive_count : AdaptivePolicy → Signals F → State → ℤ
  inactive_count policy signals st =
      if inactive policy signals then inc 31 st.consecutive_filter_inactive else pos 0

  -- The condition after the signals, with the count that includes them.
  unfoldable pub judge : ℕ → AdaptivePolicy → Signals F → ℤ → List Condition → List Condition
  unfolding zero_ejections ejections_observed
  judge now policy signals count conditions =
      if leb_ℤ (pos 3) count
      then set_condition now (zero_ejections policy signals count) conditions
      else if filter_is_ejecting signals
      then set_condition now (ejections_observed policy signals) conditions
      else conditions

  unfoldable pub observe_filter :
      ℕ → AdaptivePolicy → Signals F → Bool → State → List Condition → State × List Condition
  unfolding watched inactive judge
  observe_filter now policy signals available st conditions =
      let count = inactive_count policy signals st in
      if watched policy available
      then (
        record st { consecutive_filter_inactive = count },
        judge now policy signals count conditions,
      )
      else (st, conditions)
