-- ===== src/Poller/Tick/Flapping.antt =====
-- The debounce detects a breach, and does not flap.
use shedpilot.Common.{
  ◌≡◌, refl, ap, ◌∙◌, Bool, true, false, List, [], ◌∷◌, suc, ◌+◌, ◌^◌, ◌≤◌, ◌<◌, ℤ, pos, pos_part,
  leb_ℤ, arith, length,
}
use shedpilot.Poller.Config.{PollerConfig, InRange}
use shedpilot.Poller.Tick.{BreachState, fresh, counted, settle, debounce}
use shedpilot.Poller.Tick.Debounce.{state_after, alarm, breaching_streak, clean_streak, state_lem}

-- Whether a scrape of a history sends.
abbrev pub sends : PollerConfig → BreachState → List Bool → Bool
sends cfg s [] = false
sends cfg s (b ∷ older) = (debounce cfg b (state_after cfg s older)).1

-- The number of scrapes in a row that would take the flag off this value.
abbrev pub patience : PollerConfig → Bool → ℤ
patience cfg true = cfg.consecutive_recoveries
patience cfg false = cfg.consecutive_breaches

-- The counter that counts towards it.
abbrev pub progress : Bool → BreachState → ℤ
progress true s = s.consecutive_clean
progress false s = s.consecutive_breach

-- The counter grows by at most one, and the flag stays until the counter reaches the patience.
step_bound :
    (cfg : PollerConfig) (b v : Bool) (s : BreachState)
    → pos_part (progress v (debounce cfg b s).0) ≤ suc (pos_part (progress v s))
unfolding debounce settle counted
step_bound cfg true true s = ground arith
step_bound cfg true false s = ground arith
step_bound cfg false true s = ground arith
step_bound cfg false false s = ground arith

step_stays :
    (cfg : PollerConfig) (b v : Bool) (s : BreachState)
    → s.firing ≡ v
    → suc (pos_part (progress v s)) < pos_part (patience cfg v)
    → ((debounce cfg b s).0.firing ≡ v) × ((debounce cfg b s).1 ≡ false)
unfolding debounce settle counted
step_stays cfg true true s e l = ground arith
step_stays cfg true false s e l = ground arith
step_stays cfg false true s e l = ground arith
step_stays cfg false false s e l = ground arith

-- A send leaves the counter towards the next one at 0.
sent_resets :
    (cfg : PollerConfig) (b : Bool) (s : BreachState)
    → InRange cfg
    → (debounce cfg b s).1 ≡ true
    → progress (debounce cfg b s).0.firing (debounce cfg b s).0 ≡ pos 0
unfolding debounce settle counted
sent_resets cfg true s r e = ground (arith, r.breaches_low, r.recoveries_low)
sent_resets cfg false s r e = ground (arith, r.breaches_low, r.recoveries_low)

progress-state_after :
    (cfg : PollerConfig) (v : Bool) (s : BreachState) (more : List Bool)
    → pos_part (progress v (state_after cfg s more)) ≤ pos_part (progress v s) + length more
progress-state_after cfg v s [] = omega arith
progress-state_after cfg v s (b ∷ older) =
    omega (arith, step_bound cfg b v (state_after cfg s older), progress-state_after cfg v s older)

stays :
    (cfg : PollerConfig) (v : Bool) (s : BreachState) (more : List Bool)
    → s.firing ≡ v
    → progress v s ≡ pos 0
    → length more < pos_part (patience cfg v)
    → ((state_after cfg s more).firing ≡ v) × (sends cfg s more ≡ false)
stays cfg v s [] e p l = (e, refl)
stays cfg v s (b ∷ older) e p l =
    let before = stays cfg v s older e p (omega arith) in
    let zero_at_start : pos_part (progress v s) ≡ 0 = ap pos_part p in
    step_stays cfg b v (state_after cfg s older) before.0
      (omega (arith, progress-state_after cfg v s older))

-- After a scrape that sends, in whatever state, the flag keeps its new value and nothing is sent for
-- fewer further scrapes than the patience of that value: the recoveries after a breach was sent, the
-- breaches after a recovery was.
pub no_flapping :
    (cfg : PollerConfig) (b : Bool) (s : BreachState) (more : List Bool)
    → InRange cfg
    → (debounce cfg b s).1 ≡ true
    → length more < pos_part (patience cfg (debounce cfg b s).0.firing)
    → ((state_after cfg (debounce cfg b s).0 more).firing ≡ (debounce cfg b s).0.firing)
      × (sends cfg (debounce cfg b s).0 more ≡ false)
no_flapping cfg b s more r e l =
    stays cfg (debounce cfg b s).0.firing (debounce cfg b s).0 more refl (sent_resets cfg b s r e) l

alarm_on :
    (cfg : PollerConfig) (h : List Bool)
    → InRange cfg
    → leb_ℤ cfg.consecutive_breaches (pos (breaching_streak h)) ≡ true
    → alarm cfg h ≡ true
alarm_on cfg [] r e = ground (arith, r.breaches_low)
alarm_on cfg (true ∷ h) r e = ground (arith, r.recoveries_low)
alarm_on cfg (false ∷ h) r e = ground (arith, r.breaches_low)

alarm_off :
    (cfg : PollerConfig) (h : List Bool)
    → InRange cfg
    → leb_ℤ cfg.consecutive_recoveries (pos (clean_streak h)) ≡ true
    → alarm cfg h ≡ false
alarm_off cfg [] r e = refl
alarm_off cfg (true ∷ h) r e = ground (arith, r.recoveries_low)
alarm_off cfg (false ∷ h) r e = ground (arith, r.breaches_low)

-- With a configuration in range, whatever came before: once as many of the newest scrapes breach as
-- are configured, the flag is on.
pub detection_on :
    (cfg : PollerConfig) (h : List Bool)
    → InRange cfg
    → length h < 2 ^ 63
    → leb_ℤ cfg.consecutive_breaches (pos (breaching_streak h)) ≡ true
    → (state_after cfg fresh h).firing ≡ true
detection_on cfg h r l e =
    ap (λ (s : BreachState). s.firing) (state_lem cfg h l) ∙ alarm_on cfg h r e

-- With a configuration in range, whatever came before: once as many of the newest scrapes are clean
-- as are configured, the flag is off.
pub detection_off :
    (cfg : PollerConfig) (h : List Bool)
    → InRange cfg
    → length h < 2 ^ 63
    → leb_ℤ cfg.consecutive_recoveries (pos (clean_streak h)) ≡ true
    → (state_after cfg fresh h).firing ≡ false
detection_off cfg h r l e =
    ap (λ (s : BreachState). s.firing) (state_lem cfg h l) ∙ alarm_off cfg h r e
