-- ===== src/Scraper/Parser/Served.antt =====
-- From the texts that the sidecars serve to the signals of a reading.
use text.Mathlib.TextBridge.{of_list}
use shedpilot.Common.{String, ap, ◌∙◌, ◌≡◌, refl, true, some, List, [], ◌∷◌, ℕ, ◌≤◌, All}
use mathlib.Core.Path.{ap₂}
use shedpilot.Common.Dict.{Dict}
use shedpilot.Common.Float.{Float}
use shedpilot.Api.{HttpStatusRange}
use shedpilot.Scraper.{CounterSnapshot, Pod, none_yet, signals_of, read_signals}
use shedpilot.Scraper.Twice.{
  Seen, Distinct, Growing, firsts, seconds, answering, growth, signals-read_signals,
}
use shedpilot.Scraper.Parser.{scrape_pod, empty_snapshot}
use shedpilot.Scraper.Parser.Entries.{Entry, WellFormed, print_all, tally}
use shedpilot.Scraper.Parser.Metrics.{parse_metrics-print_all}

-- A pod, and what its sidecar serves at two times.
pub record Served (F : Type 0) : Type 0 where
  pub name : String
  pub first_at : ℕ
  pub first_entries : List (Entry F)
  pub then_at : ℕ
  pub then_entries : List (Entry F)

module _ {F : Type 0} ⦃fl : Float F⦄ where
  -- The pod whose sidecar answers a request with the printed entries.
  abbrev pub serving : String → ℕ → List (Entry F) → Pod F
  serving name at entries = record {
    name = name;
    ready = true;
    scrape = scrape_pod at (some (200, some (of_list (print_all entries))));
  }

  abbrev pub first_pods : List (Served F) → List (Pod F)
  first_pods [] = []
  first_pods (s ∷ ss) = serving s.name s.first_at s.first_entries ∷ first_pods ss

  abbrev pub then_pods : List (Served F) → List (Pod F)
  then_pods [] = []
  then_pods (s ∷ ss) = serving s.name s.then_at s.then_entries ∷ then_pods ss

  -- The counts of the entries.
  abbrev pub seen_of : Served F → Seen F
  seen_of s = record {
    name = s.name;
    before = tally s.first_entries (empty_snapshot s.first_at);
    after = tally s.then_entries (empty_snapshot s.then_at);
  }

  abbrev pub seen_all : List (Served F) → List (Seen F)
  seen_all [] = []
  seen_all (s ∷ ss) = seen_of s ∷ seen_all ss

  serving-answering :
      (name : String) (at : ℕ) (entries : List (Entry F))
      → All WellFormed entries
      → serving name at entries ≡ answering name (tally entries (empty_snapshot at))
  unfolding scrape_pod
  serving-answering name at entries fine =
      ap (λ (snap : CounterSnapshot F). answering name snap)
        (parse_metrics-print_all at entries fine)

  -- Both texts of the pod have well-formed lines.
  abbrev pub Fine : Served F → Type 0
  Fine s = All WellFormed s.first_entries × All WellFormed s.then_entries

  first_pods-firsts : (ss : List (Served F)) → All Fine ss → first_pods ss ≡ firsts (seen_all ss)
  first_pods-firsts [] fine = refl
  first_pods-firsts (s ∷ ss) fine =
      ap₂ ◌∷◌ (serving-answering s.name s.first_at s.first_entries fine.0.0)
        (first_pods-firsts ss fine.1)

  then_pods-seconds : (ss : List (Served F)) → All Fine ss → then_pods ss ≡ seconds (seen_all ss)
  then_pods-seconds [] fine = refl
  then_pods-seconds (s ∷ ss) fine =
      ap₂ ◌∷◌ (serving-answering s.name s.then_at s.then_entries fine.0.1)
        (then_pods-seconds ss fine.1)

  -- When the same pods, of different names, are read twice, and both times serve texts of
  -- well-formed lines, taken at least 0.1 s apart, the second after its reading began, with no
  -- total that falls: the signals of the second reading are those of the differences of the
  -- counts in the texts, added up, over thirty seconds.
  pub signals-served :
      (ranges : List HttpStatusRange) (first second : ℕ) (s : Served F) (ss : List (Served F))
      (previous : Dict (CounterSnapshot F))
      → All Fine (s ∷ ss)
      → Distinct (seen_all (s ∷ ss))
      → All (Growing ranges) (seen_all (s ∷ ss))
      → All (λ (o : Seen F). second ≤ o.after.scraped_at) (seen_all (s ∷ ss))
      → (read_signals second ranges
          (some (then_pods (s ∷ ss)))
          (read_signals first ranges (some (first_pods (s ∷ ss))) previous).snapshots).signals
        ≡ signals_of second 30000000000 (growth ranges (seen_all (s ∷ ss)) (none_yet []))
  signals-served ranges first second s ss previous fine distinct growing fresh =
      ap₂
        (λ (then_ones first_ones : List (Pod F)).
          (read_signals second ranges (some then_ones)
            (read_signals first ranges (some first_ones) previous).snapshots).signals)
        (then_pods-seconds (s ∷ ss) fine) (first_pods-firsts (s ∷ ss) fine)
      ∙ signals-read_signals ranges first second (seen_of s) (seen_all ss) previous distinct growing
          fresh
