-- ===== src/Tests/Polling.antt =====
-- The poll loop over a pod that answers two ticks, all of its requests in between failures.
use shedpilot.Common.{◌≡◌, refl, true, false, some, List, [], ◌∷◌, ℕ, ℤ, pos}
use shedpilot.Common.Dict.{lookup, insert}
use shedpilot.Trigger.Types.{Signals}
use shedpilot.Scraper.{
  Pod, read_signals, configured_ranges, visit_all, visit, add_deltas, prune, interval, signals_of,
  oldest_previous_timestamp, capped, seconds_f, non_neg_delta,
}
use shedpilot.Poller.Config.{PollerConfig, with_defaults}
use shedpilot.Poller.Channel.{send_non_blocking}
use shedpilot.Poller.Tick.{tick, is_breaching, breached, parse_float, debounce, counted, settle}
use shedpilot.Poller.Run.{Event, ticked, started, run, poll, after_scrape, new_poller}
use shedpilot.Tests.Thousandths.{thousandths, read, parsed}
use shedpilot.Tests.Trigger.{policy}

abbrev failing : ℕ → ℕ → Pod ℤ
failing total at = record {
  name = "pod";
  ready = true;
  scrape = some (record {
    rq_total = pos total;
    rq_2xx = pos 0;
    rq_3xx = pos 0;
    rq_4xx = pos 0;
    rq_5xx = pos total;
    shed_total = pos 0;
    scraped_at = at;
  });
}

abbrev eager : PollerConfig
eager = record {
  poll_interval = pos 500000000;
  consecutive_breaches = pos 1;
  consecutive_recoveries = pos 1;
}

abbrev two_ticks : List (Event ℤ)
two_ticks =
    ticked 1000000000 (some (failing 1000 1000000000 ∷ [])) false false
    ∷ ticked 2000000000 (some (failing 9000 2000000000 ∷ [])) false false
    ∷ []

abbrev failure : Signals ℤ
failure = record {
  success_rate = pos 0;
  service_latency_ms = pos 0;
  total_latency_ms = pos 0;
  rps = pos 266;
  sample_count = pos 8;
  collected_at = 2000000000;
  shed_rejected_rps = pos 0;
}

failure-waits : (run two_ticks (started policy eager [])).poller.out ≡ some failure
unfolding run poll after_scrape new_poller with_defaults tick is_breaching breached parse_float
    debounce counted settle send_non_blocking read_signals configured_ranges visit_all visit
    add_deltas prune interval signals_of oldest_previous_timestamp capped seconds_f non_neg_delta
    lookup insert read parsed
failure-waits = refl
