-- ===== src/Trigger/Evaluate.antt =====
-- internal/trigger/evaluator.go: Evaluate. The clock is read once for an evaluation, as `now`.
pub mod Ready
pub mod Firing
pub mod Counters
pub mod Runs
pub mod Streak
pub mod Cooldown
pub mod Presses
pub mod Leaves
use shedpilot.Common.{
  String, Bool, true, false, not, ◌&&◌, ◌||◌, Option, none, some, List, [], ◌∷◌, ℕ, ℤ, pos, ltb_ℤ,
  leb_ℤ, eq_ℤ, sub_ℕ, scale, inc, is_nonempty, any, ◌==◌, ◌<>◌, if◌then◌else◌,
}
use shedpilot.Common.Dict.{lookup, insert}
use shedpilot.Common.Float.{Float}
use shedpilot.Api.{TriggerConfig, AdaptivePolicy, has_triggers}
use shedpilot.Trigger.Types.{Signals, Decision, State}
use shedpilot.Trigger.Condition.{condition_met, required_samples}

unfoldable pub contains : List String → String → Bool
contains slice s = any (λ v. v == s) slice

-- m[k] of a map of counters: 0 where the key is missing.
abbrev pub or_zero : Option ℤ → ℤ
or_zero none = pos 0
or_zero (some n) = n

abbrev pub count : State → String → ℤ
count st name = or_zero (lookup name st.consecutive_bad_samples)

abbrev pub set_count : String → ℤ → State → State
set_count name n st = record st {
  consecutive_bad_samples = insert name n st.consecutive_bad_samples;
}

-- time.Duration(n) * time.Second
abbrev pub seconds : ℤ → ℤ
seconds = scale 1000000000

-- The cooldown test on the time of the last firing.
unfoldable pub cooling : ℕ → TriggerConfig → State → Bool
cooling now t st = elim (lookup t.name st.last_trigger_fire_time) [
  | none ↦ false
  | some last_fired ↦ ltb_ℤ (sub_ℕ now last_fired) (seconds t.cooldown_seconds)
]

-- The three tests before which the loop body does nothing but `continue`.
unfoldable pub skipped : String → ℕ → TriggerConfig → State → Bool
unfolding contains cooling
skipped current now t st =
    (is_nonempty t.from_profiles && not (contains t.from_profiles current))
    || current == t.switch_to
    || cooling now t st

abbrev no_decision : String → Decision
no_decision reason = record {
  should_switch = false;
  target_profile = "";
  trigger_name = "";
  reason = reason;
  consecutive_bad_samples = pos 0;
}

-- What an iteration of the loop does: it goes on, or returns.
pub data Step : Type 0 where
  next : Option Decision → State → Step
  fire : Decision → State → Step

module _ {F : Type 0} ⦃fl : Float F⦄ (signals : Signals F) where
  -- The counter after this sample.
  unfoldable pub counted : TriggerConfig → State → ℤ
  counted t st = if (condition_met t.when signals).0 then inc 31 (count st t.name) else pos 0

  unfoldable pub fires : TriggerConfig → ℤ → Bool
  fires t consecutive =
      (condition_met t.when signals).0 && leb_ℤ (required_samples t.when) consecutive

  unfoldable pub fired_decision : TriggerConfig → ℤ → Decision
  fired_decision t consecutive = record {
    should_switch = true;
    target_profile = t.switch_to;
    trigger_name = t.name;
    reason =
        (condition_met t.when signals).1
        <> " ("
        <> fl.decimal consecutive
        <> " consecutive samples)";
    consecutive_bad_samples = consecutive;
  }

  partial_decision : TriggerConfig → ℤ → Decision
  partial_decision t consecutive = record {
    should_switch = false;
    target_profile = "";
    trigger_name = t.name;
    reason =
        (condition_met t.when signals).1
        <> " — "
        <> fl.decimal consecutive
        <> "/"
        <> fl.decimal (required_samples t.when)
        <> " consecutive samples";
    consecutive_bad_samples = consecutive;
  }

  -- closestToFiring: the first trigger with partial progress is kept.
  unfoldable pub closest_after : Option Decision → TriggerConfig → ℤ → Option Decision
  unfolding partial_decision
  closest_after (some d) t consecutive = some d
  closest_after none t consecutive =
      if ltb_ℤ (pos 0) consecutive then some (partial_decision t consecutive) else none

module _ {F : Type 0} ⦃fl : Float F⦄ (signals : Signals F) (current : String) (now : ℕ) where
  -- The body of the loop.
  unfoldable pub step : TriggerConfig → Option Decision → State → Step
  unfolding skipped counted fires fired_decision closest_after
  step t closest st =
      if skipped current now t st
      then next closest st
      else (let st' = set_count t.name (counted signals t st) st in
          let consecutive = count st' t.name in
          if fires signals t consecutive
          then fire (fired_decision signals t consecutive) (
              set_count t.name (pos 0) (record st' {
                last_trigger_fire_time = insert t.name now st'.last_trigger_fire_time;
              }))
          else next (closest_after signals closest t consecutive) st')

  -- The return after the loop.
  unfired : Option Decision → Decision
  unfired (some d) = d
  unfired none = no_decision (
      "no conditions met — successRate="
      <> fl.fixed 3 signals.success_rate
      <> " rps="
      <> fl.fixed 0 signals.rps)

  unfoldable pub loop : List TriggerConfig → Option Decision → State → Decision × State
  unfolding unfired
  loop [] closest st = (unfired closest, st)
  loop (t ∷ ts) closest st = elim (step t closest st) [
    | next closest' st' ↦ loop ts closest' st'
    | fire d st' ↦ (d, st')
  ]

module _ {F : Type 0} ⦃fl : Float F⦄ where
  unfoldable pub evaluate : ℕ → AdaptivePolicy → Signals F → State → Decision × State
  unfolding has_triggers
  evaluate now policy signals st =
      if eq_ℤ signals.sample_count (pos 0)
      then (no_decision "skipping evaluation — no samples collected this interval", st)
      else if not (has_triggers policy)
      then (no_decision "no triggers configured", st)
      else loop signals policy.spec.active_profile now policy.spec.triggers none st
