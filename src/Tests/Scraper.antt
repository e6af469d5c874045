-- ===== src/Tests/Scraper.antt =====
-- The scraper's theorems at one pod.
use shedpilot.Common.{arith, ◌≡◌, refl, true, false, some, [], ◌∷◌, ℕ, ℤ, pos, List}
use shedpilot.Common.Dict.{Dict}
use shedpilot.Api.{HttpStatusRange}
use shedpilot.Scraper.{CounterSnapshot, Pod, safe_defaults}
use shedpilot.Scraper.Visits.{ScrapedNow}
use shedpilot.Scraper.Shared.{signals_after, evaluate-after_others}
use shedpilot.Trigger.Types.{new_state}
use shedpilot.Trigger.Evaluate.{evaluate}
use shedpilot.Tests.Trigger.{policy}
use shedpilot.Tests.Thousandths.{thousandths}

abbrev counters : ℕ → ℕ → CounterSnapshot ℤ
counters total at = record {
  rq_total = pos total;
  rq_2xx = pos total;
  rq_3xx = pos 0;
  rq_4xx = pos 0;
  rq_5xx = pos 0;
  shed_total = pos 0;
  scraped_at = at;
}

abbrev pod : Pod ℤ
pod = record { name = "pod"; ready = true; scrape = some (counters 5000 9500000000) }

abbrev success : List HttpStatusRange
success = record { start = pos 100; end = pos 399 } ∷ []

-- Half a second before, and the counters of a pod that is gone.
abbrev before : Dict (CounterSnapshot ℤ)
before = ("pod", counters 1000 9000000000) ∷ ("gone", counters 1000 9000000000) ∷ []

pod-ScrapedNow : ScrapedNow 9500000000 pod
pod-ScrapedNow = record {
  is_ready = refl;
  snap = counters 5000 9500000000;
  answers = refl;
  fresh = omega arith;
}

abbrev elsewhere : Pod ℤ
elsewhere = record pod { name = "elsewhere" }

evaluate-after_others_example :
    (signals_after 9500000000 9200000000 success success elsewhere pod [] [] before
      ≡ safe_defaults 9500000000)
    × ((evaluate 9500000000 policy
          (signals_after 9500000000 9200000000 success success elsewhere pod [] [] before)
          new_state).0.should_switch
        ≡ false)
    × ((evaluate 9500000000 policy
          (signals_after 9500000000 9200000000 success success elsewhere pod [] [] before)
          new_state).1
        ≡ new_state)
evaluate-after_others_example =
    evaluate-after_others 9500000000 9200000000 success success elsewhere pod [] [] before policy
      new_state (refl, tt) (refl, tt)
