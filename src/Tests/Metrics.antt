-- ===== src/Tests/Metrics.antt =====
-- The parser's theorems at the text of a sidecar with two counts of requests.
use text.Mathlib.TextBridge.{of_list}
use shedpilot.Common.{◌≡◌, arith, some, refl, List, [], ◌∷◌, ℤ, pos, All}
use shedpilot.Scraper.{read_signals, signals_of, none_yet}
use shedpilot.Scraper.Twice.{growth}
use shedpilot.Scraper.Parser.Served.{Served, Fine, first_pods, then_pods, seen_all, signals-served}
use shedpilot.Scraper.Text.{chars}
use shedpilot.Scraper.Parser.{parse_metrics, empty_snapshot}
use shedpilot.Scraper.Parser.Entries.{
  Entry, requests, shed, other, print_all, tally, WellFormed, IsValue,
}
use shedpilot.Scraper.Parser.Metrics.{parse_metrics-print_all}
use shedpilot.Tests.Thousandths.{thousandths, read, parsed}

abbrev entries : List (Entry ℤ)
entries =
    other (chars "# TYPE istio_requests_total counter")
    ∷ requests (chars "reporter=\"destination\",") (chars "200") (chars ",path=\"/{id} x\"")
        (chars "154") (pos 154000)
    ∷ requests (chars "") (chars "503") (chars "") (chars "6") (pos 6000)
    ∷ shed (chars "") (chars "") (chars "3") (pos 3000)
    ∷ []

is_154 : IsValue (chars "154") (pos 154000)
unfolding read parsed
is_154 = record { no_end = refl; no_space = refl; scans = refl; finite = refl }

is_6 : IsValue (chars "6") (pos 6000)
unfolding read parsed
is_6 = record { no_end = refl; no_space = refl; scans = refl; finite = refl }

is_3 : IsValue (chars "3") (pos 3000)
unfolding read parsed
is_3 = record { no_end = refl; no_space = refl; scans = refl; finite = refl }

entries-WellFormed : All WellFormed entries
entries-WellFormed = (
  (refl, refl, refl),
  ((is_154, refl, refl, refl), ((is_6, refl, refl, refl), ((is_3, refl, refl), tt))),
)

parse_metrics-print_all_example :
    parse_metrics 7 (of_list (print_all entries)) ≡ tally entries (empty_snapshot {F = ℤ} 7)
parse_metrics-print_all_example = parse_metrics-print_all 7 entries entries-WellFormed

-- A thousand successes later.
abbrev more : List (Entry ℤ)
more =
    requests (chars "reporter=\"destination\",") (chars "200") (chars "") (chars "1154")
      (pos 1154000)
    ∷ requests (chars "") (chars "503") (chars "") (chars "6") (pos 6000)
    ∷ []

is_1154 : IsValue (chars "1154") (pos 1154000)
unfolding read parsed
is_1154 = record { no_end = refl; no_space = refl; scans = refl; finite = refl }

abbrev payments : Served ℤ
payments = record {
  name = "payments";
  first_at = 1000000000;
  first_entries = entries;
  then_at = 31000000000;
  then_entries = more;
}

payments-Fine : Fine payments
payments-Fine = (entries-WellFormed, ((is_1154, refl, refl, refl), ((is_6, refl, refl, refl), tt)))

signals-served_example :
    (read_signals 31000000000 []
      (some (then_pods (payments ∷ [])))
      (read_signals 1000000000 [] (some (first_pods (payments ∷ []))) []).snapshots).signals
    ≡ signals_of 31000000000 30000000000 (growth [] (seen_all (payments ∷ [])) (none_yet []))
signals-served_example =
    signals-served [] 1000000000 31000000000 payments [] [] (payments-Fine, tt) (tt, tt)
      (record { apart = refl; grown = refl }, tt) (omega arith)
