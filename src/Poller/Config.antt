-- ===== src/Poller/Config.antt =====
-- internal/signal/poller.go: PollerConfig. Durations are nanoseconds.
use shedpilot.Common.{ℕ, ◌*◌, ◌≡◌, true, ◌||◌, ℤ, pos, ltb_ℤ, leb_ℤ, arith, if◌then◌else◌}

pub record PollerConfig : Type 0 where
  pub poll_interval : ℤ
  pub consecutive_breaches : ℤ
  pub consecutive_recoveries : ℤ

abbrev millisecond : ℕ
millisecond = 1000000

abbrev pub default_poll_interval : ℤ
default_poll_interval = pos (500 * millisecond)

abbrev pub default_consecutive_breaches : ℤ
default_consecutive_breaches = pos 3

abbrev pub default_consecutive_recoveries : ℤ
default_consecutive_recoveries = pos 4

abbrev pub min_poll_interval : ℤ
min_poll_interval = pos (100 * millisecond)

abbrev pub max_poll_interval : ℤ
max_poll_interval = pos (10000 * millisecond)

unfoldable pub with_defaults : PollerConfig → PollerConfig
with_defaults c = record {
  poll_interval =
      if ltb_ℤ c.poll_interval min_poll_interval || ltb_ℤ max_poll_interval c.poll_interval
      then default_poll_interval
      else c.poll_interval;
  consecutive_breaches =
      if leb_ℤ c.consecutive_breaches (pos 0) || ltb_ℤ (pos 20) c.consecutive_breaches
      then default_consecutive_breaches
      else c.consecutive_breaches;
  consecutive_recoveries =
      if leb_ℤ c.consecutive_recoveries (pos 0) || ltb_ℤ (pos 20) c.consecutive_recoveries
      then default_consecutive_recoveries
      else c.consecutive_recoveries;
}

-- Every field is in the range that the resource documents.
pub record InRange (c : PollerConfig) : Type 0 where
  pub interval_low : leb_ℤ min_poll_interval c.poll_interval ≡ true
  pub interval_high : leb_ℤ c.poll_interval max_poll_interval ≡ true
  pub breaches_low : leb_ℤ (pos 1) c.consecutive_breaches ≡ true
  pub breaches_high : leb_ℤ c.consecutive_breaches (pos 20) ≡ true
  pub recoveries_low : leb_ℤ (pos 1) c.consecutive_recoveries ≡ true
  pub recoveries_high : leb_ℤ c.consecutive_recoveries (pos 20) ≡ true

-- Whatever is configured, the poller's configuration is in the documented ranges.
pub with_defaults-InRange : (c : PollerConfig) → InRange (with_defaults c)
unfolding with_defaults
with_defaults-InRange c = record {
  interval_low = ground arith;
  interval_high = ground arith;
  breaches_low = ground arith;
  breaches_high = ground arith;
  recoveries_low = ground arith;
  recoveries_high = ground arith;
}

-- A configuration in range is kept.
with_defaults-of_InRange : (c : PollerConfig) → InRange c → with_defaults c ≡ c
unfolding with_defaults
with_defaults-of_InRange c r = ground arith
