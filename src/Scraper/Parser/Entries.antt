-- ===== src/Scraper/Parser/Entries.antt =====
-- The lines of a sidecar's metrics as samples: how they are printed, and what they add up to.
use Prim.Native.Char.{code}
use text.Mathlib.TextBridge.{of_list}
use shedpilot.Common.{
  ◌≡◌, Bool, true, false, some, List, [], ◌∷◌, ◌++◌, ℕ, nat_eq, ◌||◌, if◌then◌else◌,
}
use shedpilot.Common.Float.{Float}
use shedpilot.Scraper.{CounterSnapshot}
use shedpilot.Scraper.Text.{Line, chars, has_prefix, after_first}
use shedpilot.Scraper.Parser.{metric_admission_rq_shed, metric_requests}
use shedpilot.Scraper.Parser.Lines.{has, has_space, sample_line}

-- A line of the metrics: a count of requests, with the labels before and after the response code; a
-- count of requests that were shed, with what follows the metric's name; or a line of neither metric.
pub data Entry (F : Type 0) : Type 0 where
  requests : Line → Line → Line → Line → F → Entry F
  shed : Line → Line → Line → F → Entry F
  other : Line → Entry F

abbrev pub code_label : Line
code_label = chars "response_code" ++ chars "=\""

abbrev pub labels_of : Line → Line → Line → Line
labels_of pre response post = pre ++ (code_label ++ (response ++ (chars "\"" ++ post)))

abbrev pub print_entry : {F : Type 0} → Entry F → Line
print_entry (requests pre response post value x) =
    sample_line (chars "istio_requests_total") (labels_of pre response post) value
print_entry (shed suffix labels value x) =
    sample_line (chars metric_admission_rq_shed ++ suffix) labels value
print_entry (other line) = line

abbrev pub print_all : {F : Type 0} → List (Entry F) → Line
print_all [] = []
print_all (entry ∷ entries) = print_entry entry ++ (chars "\n" ++ print_all entries)

module _ {F : Type 0} ⦃fl : Float F⦄ where
  -- The value has no space and no brace, and scans as the finite number.
  pub record IsValue (value : Line) (x : F) : Type 0 where
    pub no_end : has 125 value ≡ false
    pub no_space : has_space value ≡ false
    pub scans : fl.parse (of_list value) ≡ (x, true)
    pub finite : fl.is_finite x ≡ true

  -- What the lines are assumed to be: the first `response_code="` is that of the label, its value has no
  -- quote, and no line has a line break.
  abbrev pub WellFormed : Entry F → Type 0
  WellFormed (requests pre response post value x) =
      IsValue value x
      × (after_first code_label (chars metric_requests ++ (pre ++ code_label)) ≡ some [])
      × (has 34 response ≡ false)
      × (has 10 (print_entry (requests pre response post value x)) ≡ false)
  WellFormed (shed suffix labels value x) =
      IsValue value x
      × (has 123 suffix ≡ false)
      × (has 10 (print_entry (shed suffix labels value x)) ≡ false)
  WellFormed (other line) =
      (has_prefix line (chars metric_admission_rq_shed) ≡ false)
      × (has_prefix line (chars metric_requests) ≡ false)
      × (has 10 line ≡ false)

-- Whether a response code is of the class with this first digit.
abbrev pub starts : ℕ → Line → Bool
starts digit [] = false
starts digit (c ∷ cs) = nat_eq (code c) digit

-- Whether a response code is of one of the classes 2 to 5.
abbrev pub is_classed : Line → Bool
is_classed response =
    starts 50 response || starts 51 response || starts 52 response || starts 53 response

module _ {F : Type 0} ⦃fl : Float F⦄ where
  -- The counts of requests whose response codes pass a test, added to what there was, in order.
  abbrev pub sum_requests : (Line → Bool) → List (Entry F) → F → F
  sum_requests test [] sum = sum
  sum_requests test (requests pre response post value x ∷ entries) sum =
      sum_requests test entries (if test response then fl.add sum x else sum)
  sum_requests test (shed suffix labels value x ∷ entries) sum = sum_requests test entries sum
  sum_requests test (other line ∷ entries) sum = sum_requests test entries sum

  abbrev pub sum_shed : List (Entry F) → F → F
  sum_shed [] sum = sum
  sum_shed (requests pre response post value x ∷ entries) sum = sum_shed entries sum
  sum_shed (shed suffix labels value x ∷ entries) sum = sum_shed entries (fl.add sum x)
  sum_shed (other line ∷ entries) sum = sum_shed entries sum

  -- The counters after the entries.
  abbrev pub tally : List (Entry F) → CounterSnapshot F → CounterSnapshot F
  tally entries snap = record {
    rq_total = sum_requests is_classed entries snap.rq_total;
    rq_2xx = sum_requests (starts 50) entries snap.rq_2xx;
    rq_3xx = sum_requests (starts 51) entries snap.rq_3xx;
    rq_4xx = sum_requests (starts 52) entries snap.rq_4xx;
    rq_5xx = sum_requests (starts 53) entries snap.rq_5xx;
    shed_total = sum_shed entries snap.shed_total;
    scraped_at = snap.scraped_at;
  }
