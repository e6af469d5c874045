-- ===== src/Trigger/Condition.antt =====
-- internal/trigger/evaluator.go: conditionMet, requiredSamples and their helpers.
pub mod Conjunction
use shedpilot.Common.{
  String, Bool, true, false, ◌&&◌, Option, none, some, List, [], ◌∷◌, ◌++◌, ℤ, pos, ltb_ℤ, ◌==◌,
  ◌<>◌, if◌then◌else◌,
}
use shedpilot.Common.Float.{Float}
use shedpilot.Api.{RateCondition, ThresholdCondition, TriggerCondition}
use shedpilot.Trigger.Types.{Signals}

unfoldable pub ltgt : Bool → Bool → String
ltgt true true = "<"
ltgt false true = "≥"
ltgt true false = ">"
ltgt false false = "≤"

-- A result and its reason, which the source appends to two slices at once.
abbrev pub Check : Type 0
Check = Bool × String

-- The source's `if bound != ""` around an append.
abbrev pub unless_empty : String → Check → List Check
unless_empty bound c = if bound == "" then [] else c ∷ []

all_met : List Check → Bool
all_met [] = true
all_met ((met, reason) ∷ rest) = met && all_met rest

-- The reasons, with ", " between them.
join_reasons : List Check → String
join_reasons [] = ""
join_reasons ((met, reason) ∷ []) = reason
join_reasons ((met, reason) ∷ c ∷ rest) = reason <> ", " <> join_reasons (c ∷ rest)

-- No check at all is not met.
verdict : List Check → Bool × String
verdict [] = (false, "no conditions defined")
verdict (c ∷ rest) = (all_met (c ∷ rest), join_reasons (c ∷ rest))

module _ {F : Type 0} ⦃fl : Float F⦄ where
  pub must_parse_rate : String → F
  must_parse_rate s = (fl.parse s).0

  pub must_parse_threshold : String → F
  must_parse_threshold s = (fl.parse s).0

  rate_checks : Signals F → Option RateCondition → List Check
  rate_checks sig none = []
  rate_checks sig (some sr) =
      let shown = "successRate=" <> fl.fixed 3 sig.success_rate <> " " in
      let is_below = fl.lt sig.success_rate (must_parse_rate sr.below) in
      let is_above = fl.lt (must_parse_rate sr.above) sig.success_rate in
      unless_empty sr.below (is_below, shown <> ltgt is_below true <> " " <> sr.below)
      ++ unless_empty sr.above (is_above, shown <> ltgt is_above false <> " " <> sr.above)

  latency_checks : Signals F → Option ThresholdCondition → List Check
  latency_checks sig none = []
  latency_checks sig (some lat) =
      let shown = "ownLatency=" <> fl.fixed 0 sig.service_latency_ms <> "ms " in
      let is_above = fl.lt (must_parse_threshold lat.above) sig.service_latency_ms in
      let is_below = fl.lt sig.service_latency_ms (must_parse_threshold lat.below) in
      unless_empty lat.above (is_above, shown <> ltgt is_above false <> " " <> lat.above <> "ms")
      ++ unless_empty lat.below (is_below, shown <> ltgt is_below true <> " " <> lat.below <> "ms")

  rps_checks : Signals F → Option ℤ → List Check
  rps_checks sig none = []
  rps_checks sig (some bound) =
      (
        fl.lt (fl.of_int bound) sig.rps,
        "rps=" <> fl.fixed 0 sig.rps <> " above " <> fl.decimal bound,
      )
      ∷ []

  pub checks : TriggerCondition → Signals F → List Check
  unfolding rate_checks latency_checks rps_checks must_parse_rate must_parse_threshold
  checks cond sig =
      rate_checks sig cond.success_rate
      ++ latency_checks sig cond.service_latency_ms
      ++ rps_checks sig cond.rps_above

  unfoldable pub condition_met : TriggerCondition → Signals F → Bool × String
  unfolding verdict checks all_met join_reasons
  condition_met cond sig = verdict (checks cond sig)

rate_samples : Option RateCondition → ℤ
rate_samples none = pos 0
rate_samples (some sr) = sr.consecutive_samples

latency_samples : Option ThresholdCondition → ℤ
latency_samples none = pos 0
latency_samples (some lat) = lat.consecutive_samples

-- A setting that is absent counts as 0, which the source's `> 0` passes over alike.
unfoldable pub required_samples : TriggerCondition → ℤ
unfolding rate_samples latency_samples
required_samples cond =
    if ltb_ℤ (pos 0) (rate_samples cond.success_rate)
    then rate_samples cond.success_rate
    else if ltb_ℤ (pos 0) (latency_samples cond.service_latency_ms)
    then latency_samples cond.service_latency_ms
    else pos 1
