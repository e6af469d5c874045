-- ===== src/Trigger/Condition/Conjunction.antt =====
-- conditionMet is the conjunction of the bounds that a condition sets.
use shedpilot.Common.{
  refl, [], ◌∷◌, ◌++◌, ◌&&◌, ◌||◌, is_nonempty, ◌≡◌, ◌≢◌, ◌↔◌, ◌⊎◌, Bool, true, false, Option, none,
  some, List, Bool, ℤ, arith, eq_iff,
}
use shedpilot.Common.Float.{Float}
use shedpilot.Api.{RateCondition, ThresholdCondition, TriggerCondition}
use shedpilot.Trigger.Types.{Signals}
use shedpilot.Trigger.Condition.{
  Check, all_met, verdict, must_parse_rate, must_parse_threshold, rate_checks, latency_checks,
  rps_checks, checks, condition_met,
}

all_met-append : (xs ys : List Check) → all_met (xs ++ ys) ≡ all_met xs && all_met ys
unfolding all_met
all_met-append [] ys = refl
all_met-append ((true, r) ∷ xs) ys = all_met-append xs ys
all_met-append ((false, r) ∷ xs) ys = refl

is_nonempty-append :
    (xs ys : List Check) → is_nonempty (xs ++ ys) ≡ is_nonempty xs || is_nonempty ys
is_nonempty-append [] ys = refl
is_nonempty-append (x ∷ xs) ys = refl

verdict_lem : (cs : List Check) → (verdict cs).0 ≡ is_nonempty cs && all_met cs
unfolding verdict
verdict_lem [] = refl
verdict_lem (c ∷ cs) = refl

verdict-three :
    (xs ys zs : List Check)
    → (verdict (xs ++ ys ++ zs)).0
      ≡ (is_nonempty xs || is_nonempty ys || is_nonempty zs)
        && (all_met xs && all_met ys && all_met zs)
verdict-three xs ys zs = simp (verdict_lem, is_nonempty-append, all_met-append)

combine :
    {P Q R S T U : Type 0} (a b c d e f : Bool)
    → (a ≡ true) ↔ P
    → (b ≡ true) ↔ Q
    → (c ≡ true) ↔ R
    → (d ≡ true) ↔ S
    → (e ≡ true) ↔ T
    → (f ≡ true) ↔ U
    → (((a || b || c) && (d && e && f)) ≡ true) ↔ ((P ⊎ Q ⊎ R) × (S × T × U))
combine a b c d e f p q r s t u = (ground arith, ground arith)

-- Some bound is set.
abbrev RateSet : Option RateCondition → Type 0
RateSet none = ⊥
RateSet (some sr) = (sr.below ≢ "") ⊎ (sr.above ≢ "")

abbrev LatencySet : Option ThresholdCondition → Type 0
LatencySet none = ⊥
LatencySet (some lat) = (lat.above ≢ "") ⊎ (lat.below ≢ "")

abbrev RpsSet : Option ℤ → Type 0
RpsSet none = ⊥
RpsSet (some bound) = Unit

abbrev pub SetsBound : TriggerCondition → Type 0
SetsBound c = RateSet c.success_rate ⊎ LatencySet c.service_latency_ms ⊎ RpsSet c.rps_above

-- Every bound that is set holds of the signals.
module _ {F : Type 0} ⦃fl : Float F⦄ (sig : Signals F) where
  abbrev RateHolds : Option RateCondition → Type 0
  RateHolds none = Unit
  RateHolds (some sr) =
      ((sr.below ≡ "") ⊎ (fl.lt sig.success_rate (must_parse_rate sr.below) ≡ true))
      × ((sr.above ≡ "") ⊎ (fl.lt (must_parse_rate sr.above) sig.success_rate ≡ true))

  abbrev LatencyHolds : Option ThresholdCondition → Type 0
  LatencyHolds none = Unit
  LatencyHolds (some lat) =
      ((lat.above ≡ "") ⊎ (fl.lt (must_parse_threshold lat.above) sig.service_latency_ms ≡ true))
      × ((lat.below ≡ "") ⊎ (fl.lt sig.service_latency_ms (must_parse_threshold lat.below) ≡ true))

  abbrev RpsHolds : Option ℤ → Type 0
  RpsHolds none = Unit
  RpsHolds (some bound) = fl.lt (fl.of_int bound) sig.rps ≡ true

  abbrev pub Holds : TriggerCondition → Type 0
  Holds c = RateHolds c.success_rate × LatencyHolds c.service_latency_ms × RpsHolds c.rps_above

  rate_checks_all : (o : Option RateCondition) → (all_met (rate_checks sig o) ≡ true) ↔ RateHolds o
  unfolding all_met rate_checks
  rate_checks_all none = ((λ _. tt), (λ _. refl))
  rate_checks_all (some sr) = (
    ground (arith, eq_iff sr.below "", eq_iff sr.above ""),
    ground (arith, eq_iff sr.below "", eq_iff sr.above ""),
  )

  latency_checks_all :
      (o : Option ThresholdCondition) → (all_met (latency_checks sig o) ≡ true) ↔ LatencyHolds o
  unfolding all_met latency_checks
  latency_checks_all none = ((λ _. tt), (λ _. refl))
  latency_checks_all (some lat) = (
    ground (arith, eq_iff lat.below "", eq_iff lat.above ""),
    ground (arith, eq_iff lat.below "", eq_iff lat.above ""),
  )

  rate_checks_set :
      (o : Option RateCondition) → (is_nonempty (rate_checks sig o) ≡ true) ↔ RateSet o
  unfolding rate_checks
  rate_checks_set none = ((λ e. cc), (λ e. absurd e))
  rate_checks_set (some sr) = (
    ground (arith, eq_iff sr.below "", eq_iff sr.above ""),
    ground (arith, eq_iff sr.below "", eq_iff sr.above ""),
  )

  latency_checks_set :
      (o : Option ThresholdCondition) → (is_nonempty (latency_checks sig o) ≡ true) ↔ LatencySet o
  unfolding latency_checks
  latency_checks_set none = ((λ e. cc), (λ e. absurd e))
  latency_checks_set (some lat) = (
    ground (arith, eq_iff lat.below "", eq_iff lat.above ""),
    ground (arith, eq_iff lat.below "", eq_iff lat.above ""),
  )

  rps_checks_all : (o : Option ℤ) → (all_met (rps_checks sig o) ≡ true) ↔ RpsHolds o
  unfolding all_met rps_checks
  rps_checks_all none = ((λ _. tt), (λ _. refl))
  rps_checks_all (some bound) = (ground arith, ground arith)

  rps_checks_set : (o : Option ℤ) → (is_nonempty (rps_checks sig o) ≡ true) ↔ RpsSet o
  unfolding rps_checks
  rps_checks_set none = ((λ e. cc), (λ e. absurd e))
  rps_checks_set (some bound) = ((λ _. tt), (λ _. refl))

  -- A condition is met exactly when it sets a bound and every bound that it sets holds.
  pub condition_met_iff :
      (c : TriggerCondition) → ((condition_met c sig).0 ≡ true) ↔ (SetsBound c × Holds c)
  unfolding condition_met checks
  condition_met_iff c = rw verdict-three (
      combine _ _ _ _ _ _ (rate_checks_set c.success_rate) (latency_checks_set c.service_latency_ms)
        (rps_checks_set c.rps_above) (rate_checks_all c.success_rate)
        (latency_checks_all c.service_latency_ms) (rps_checks_all c.rps_above))
