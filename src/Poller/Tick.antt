-- ===== src/Poller/Tick.antt =====
-- internal/signal/poller.go: isBreaching and tick. A scrape is the result of Scraper.ReadSignals,
-- none on an error. What a tick sends is `some`.
pub mod Debounce
pub mod Breach
pub mod Flapping
use shedpilot.Common.{
  String, Bool, true, false, not, ◌&&◌, Option, none, some, List, ℤ, pos, leb_ℤ, inc, any, ◌==◌,
  if◌then◌else◌,
}
use shedpilot.Common.Float.{Float}
use shedpilot.Api.{RateCondition, TriggerConfig}
use shedpilot.Trigger.Types.{Signals}
use shedpilot.Poller.Config.{PollerConfig}

-- The counters are int.
pub record BreachState : Type 0 where
  pub consecutive_breach : ℤ
  pub consecutive_clean : ℤ
  pub firing : Bool

abbrev pub fresh : BreachState
fresh = record { consecutive_breach = pos 0; consecutive_clean = pos 0; firing = false }

module _ {F : Type 0} ⦃fl : Float F⦄ where
  scanned : Option F → F
  scanned none = fl.of_int (pos 0)
  scanned (some x) = x

  unfoldable pub parse_float : String → F
  unfolding scanned
  parse_float s = if s == "" then fl.of_int (pos 0) else scanned (fl.scan s)

  -- The loop body of isBreaching: whether it returns true at this trigger.
  unfoldable pub breached : Signals F → Option RateCondition → Bool
  breached sig none = false
  breached sig (some sr) =
      not (sr.below == "")
      && fl.lt (fl.of_int (pos 0)) (parse_float sr.below)
      && fl.lt sig.success_rate (parse_float sr.below)

  unfoldable pub is_breaching : List TriggerConfig → Signals F → Bool
  unfolding breached
  is_breaching triggers sig = any (λ t. breached sig t.when.success_rate) triggers

-- The counters after a scrape.
unfoldable pub counted : Bool → BreachState → BreachState
counted true s = record s {
  consecutive_clean = pos 0;
  consecutive_breach = inc 63 s.consecutive_breach;
}
counted false s = record s {
  consecutive_breach = pos 0;
  consecutive_clean = inc 63 s.consecutive_clean;
}

-- The switch on the counters: the state, and whether it sends.
unfoldable pub settle : PollerConfig → BreachState → BreachState × Bool
settle cfg s =
    if not s.firing && leb_ℤ cfg.consecutive_breaches s.consecutive_breach
    then (record s { firing = true }, true)
    else if s.firing && leb_ℤ cfg.consecutive_recoveries s.consecutive_clean
    then (record s { firing = false }, true)
    else (s, false)

-- A scrape as the debounce sees it.
unfoldable pub debounce : PollerConfig → Bool → BreachState → BreachState × Bool
unfolding counted settle
debounce cfg breaching s = settle cfg (counted breaching s)

module _ {F : Type 0} ⦃fl : Float F⦄ where
  unfoldable pub tick :
      PollerConfig
      → List TriggerConfig
      → Option (Signals F)
      → BreachState
      → BreachState × Option (Signals F)
  unfolding debounce is_breaching
  tick cfg triggers none s = (s, none)
  tick cfg triggers (some signals) s =
      let (s', sends) = debounce cfg (is_breaching triggers signals) s in
      (s', if sends then some signals else none)
