-- ===== src/Poller/Tick/Breach.antt =====
-- isBreaching is the existence of a trigger whose success-rate bound lies above the rate.
use shedpilot.Common.{
  ◌≡◌, ◌≢◌, ◌↔◌, ◌⊎◌, true, Option, none, some, List, [], ◌∷◌, pos, arith, eq_iff,
}
use shedpilot.Common.Float.{Float}
use shedpilot.Api.{RateCondition, TriggerConfig}
use shedpilot.Trigger.Types.{Signals}
use shedpilot.Poller.Tick.{parse_float, breached, is_breaching}

module _ {F : Type 0} ⦃fl : Float F⦄ (sig : Signals F) where
  -- The bound is set, is positive, and lies above the success rate.
  abbrev pub Breaches : Option RateCondition → Type 0
  Breaches none = ⊥
  Breaches (some sr) =
      (sr.below ≢ "")
      × (fl.lt (fl.of_int (pos 0)) (parse_float sr.below) ≡ true)
      × (fl.lt sig.success_rate (parse_float sr.below) ≡ true)

  abbrev pub SomeBreaches : List TriggerConfig → Type 0
  SomeBreaches [] = ⊥
  SomeBreaches (t ∷ ts) = Breaches t.when.success_rate ⊎ SomeBreaches ts

  breached_iff : (o : Option RateCondition) → (breached sig o ≡ true) ↔ Breaches o
  unfolding breached
  breached_iff none = ((λ e. cc), λ e. absurd e)
  breached_iff (some sr) = (ground (arith, eq_iff sr.below ""), ground (arith, eq_iff sr.below ""))

  -- Signals breach exactly when some trigger has a success-rate bound that is set, positive and above
  -- the success rate: the highest such bound decides.
  pub is_breaching_iff :
      (triggers : List TriggerConfig) → (is_breaching triggers sig ≡ true) ↔ SomeBreaches triggers
  unfolding is_breaching
  is_breaching_iff [] = ((λ e. cc), λ e. absurd e)
  is_breaching_iff (t ∷ ts) =
      let head = breached_iff t.when.success_rate in
      let rest = is_breaching_iff ts in (ground (arith, head, rest), ground (arith, head, rest))
