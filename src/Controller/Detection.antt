-- ===== src/Controller/Detection.antt =====
-- internal/controller/adaptivepolicy_controller.go: pollerConfig and scrapeInterval. Durations are
-- nanoseconds.
use shedpilot.Common.{
  ◌≡◌, true, Option, none, some, ℤ, pos, scale, ltb_ℤ, leb_ℤ, if◌then◌else◌, arith,
}
use shedpilot.Api.{AdaptivePolicy, DetectionConfig}
use shedpilot.Poller.Config.{
  PollerConfig, with_defaults, default_poll_interval, default_consecutive_breaches,
  default_consecutive_recoveries,
}

unfoldable pub poller_config : Option DetectionConfig → PollerConfig
poller_config none = record {
  poll_interval = pos 0;
  consecutive_breaches = pos 0;
  consecutive_recoveries = pos 0;
}
poller_config (some d) = record {
  poll_interval =
      if ltb_ℤ (pos 0) d.poll_interval_ms
      then scale 1000000 d.poll_interval_ms
      else default_poll_interval;
  consecutive_breaches =
      if ltb_ℤ (pos 0) d.consecutive_breaches
      then d.consecutive_breaches
      else default_consecutive_breaches;
  consecutive_recoveries =
      if ltb_ℤ (pos 0) d.consecutive_recoveries
      then d.consecutive_recoveries
      else default_consecutive_recoveries;
}

pub scrape_interval : AdaptivePolicy → ℤ
scrape_interval policy = elim policy.spec.signal_config [
  | none ↦ pos 30000000000
  | some c ↦
      if ltb_ℤ (pos 0) c.evaluation_interval_seconds
      then scale 1000000000 c.evaluation_interval_seconds
      else pos 30000000000
]

-- The ranges that the resource's schema allows.
pub record Allowed (d : DetectionConfig) : Type 0 where
  pub interval_low : leb_ℤ (pos 100) d.poll_interval_ms ≡ true
  pub interval_high : leb_ℤ d.poll_interval_ms (pos 10000) ≡ true
  pub breaches_low : leb_ℤ (pos 1) d.consecutive_breaches ≡ true
  pub breaches_high : leb_ℤ d.consecutive_breaches (pos 20) ≡ true
  pub recoveries_low : leb_ℤ (pos 1) d.consecutive_recoveries ≡ true
  pub recoveries_high : leb_ℤ d.consecutive_recoveries (pos 20) ≡ true

-- A poller runs with the detection settings of the policy where they are in the allowed ranges: the
-- milliseconds as nanoseconds, the counts as they are.
pub with_defaults-poller_config :
    (d : DetectionConfig)
    → Allowed d
    → with_defaults (poller_config (some d)) ≡ record {
      poll_interval = scale 1000000 d.poll_interval_ms;
      consecutive_breaches = d.consecutive_breaches;
      consecutive_recoveries = d.consecutive_recoveries;
    }
unfolding poller_config with_defaults
with_defaults-poller_config d a = ground arith
