-- ===== src/Tests/Poller.antt =====
-- The poller theorems at concrete configurations and histories.
use shedpilot.Common.{◌≡◌, ◌↔◌, refl, true, false, [], ◌∷◌, ℕ, pos, negsuc, arith, List, Bool}
use shedpilot.Poller.Config.{PollerConfig, InRange, with_defaults, with_defaults-InRange}
use shedpilot.Poller.Tick.{fresh, debounce, is_breaching}
use shedpilot.Poller.Tick.Debounce.{state_after, spec_state, alarm, changed, debounce_refines}
use shedpilot.Poller.Tick.Breach.{SomeBreaches, is_breaching_iff}
use shedpilot.Poller.Tick.Flapping.{sends, no_flapping, detection_on}
use shedpilot.Poller.Channel.{send, take, channel_after, newest, channel_after_lem}
use shedpilot.Tests.Thousandths.{thousandths}
use shedpilot.Tests.Trigger.{spec, poor}

abbrev usual : PollerConfig
usual = record {
  poll_interval = pos 500000000;
  consecutive_breaches = pos 3;
  consecutive_recoveries = pos 4;
}

usual-InRange : InRange usual
usual-InRange = record {
  interval_low = refl;
  interval_high = refl;
  breaches_low = refl;
  breaches_high = refl;
  recoveries_low = refl;
  recoveries_high = refl;
}

abbrev three_bad : List Bool
three_bad = true ∷ true ∷ true ∷ []

abbrev four_good : List Bool
four_good = false ∷ false ∷ false ∷ false ∷ three_bad

with_defaults-InRange_example : InRange (
    with_defaults (record {
      poll_interval = pos 0;
      consecutive_breaches = negsuc 4;
      consecutive_recoveries = pos 21;
    }))
with_defaults-InRange_example = with_defaults-InRange (record {
  poll_interval = pos 0;
  consecutive_breaches = negsuc 4;
  consecutive_recoveries = pos 21;
})

is_breaching_iff_example :
    (is_breaching spec.triggers poor ≡ true) ↔ SomeBreaches poor spec.triggers
is_breaching_iff_example = is_breaching_iff poor spec.triggers

debounce_refines_example :
    (state_after usual fresh three_bad ≡ spec_state usual three_bad)
    × ((debounce usual true (state_after usual fresh (true ∷ true ∷ []))).1
        ≡ changed (alarm usual (true ∷ true ∷ [])) (alarm usual three_bad))
debounce_refines_example = debounce_refines usual true (true ∷ true ∷ []) (omega arith)

third_sends : (debounce usual true (state_after usual fresh (true ∷ true ∷ []))).1 ≡ true
unfolding debounce
third_sends = refl

no_flapping_example :
    ((state_after usual
        (debounce usual true (state_after usual fresh (true ∷ true ∷ []))).0
        (false ∷ [])).firing
      ≡ (debounce usual true (state_after usual fresh (true ∷ true ∷ []))).0.firing)
    × (sends usual (debounce usual true (state_after usual fresh (true ∷ true ∷ []))).0 (false ∷ [])
        ≡ false)
unfolding debounce
no_flapping_example =
    no_flapping usual true (state_after usual fresh (true ∷ true ∷ [])) (false ∷ []) usual-InRange
      third_sends (omega arith)

detection_on_example : (state_after usual fresh three_bad).firing ≡ true
detection_on_example = detection_on usual three_bad usual-InRange (omega arith) refl

channel_after_lem_example :
    channel_after (send true false 3 ∷ send false false 2 ∷ take ∷ send true true 1 ∷ [])
    ≡ newest {A = ℕ} (send true false 3 ∷ send false false 2 ∷ take ∷ send true true 1 ∷ [])
channel_after_lem_example =
    channel_after_lem (send true false 3 ∷ send false false 2 ∷ take ∷ send true true 1 ∷ [])
