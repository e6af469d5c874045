-- ===== src/Scraper/Parser.antt =====
-- internal/signal/scraper.go: parseMetrics over the text of a sidecar's metrics.
pub mod Lines
pub mod Entries
pub mod Labels
pub mod Metrics
pub mod Served
use Prim.Native.Char.{Char, code}
use text.Mathlib.TextBridge.{of_list}
use shedpilot.Common.{
  String, Bool, true, false, not, Option, none, some, List, [], ◌∷◌, ◌++◌, ℕ, pos, nat_eq,
  is_nonempty, ◌&&◌, ◌||◌, if◌then◌else◌,
}
use shedpilot.Common.Float.{Float}
use shedpilot.Scraper.{CounterSnapshot}
use shedpilot.Scraper.Text.{
  Line, chars, split_first, split_last, has_prefix, after_first, trim_space, lines_of,
}

abbrev pub metric_admission_rq_shed : String
metric_admission_rq_shed = "envoy_http_admission_control_requests_ejected"

abbrev pub metric_requests : String
metric_requests = "istio_requests_total{"

abbrev pub before_first : Option (Line × Line) → Line
before_first none = []
before_first (some (before, rest)) = before

-- extractLabel; "" where the label is missing, or its value has no end.
abbrev pub value_after : Option Line → Line
value_after none = []
value_after (some rest) = before_first (split_first 34 rest)

unfoldable pub extract_label : Line → String → Line
extract_label line key = value_after (after_first (chars key ++ chars "=\"") line)

unfoldable pub http_class : Line → ℕ
http_class [] = 0
http_class (c ∷ cs) =
    if nat_eq (code c) 50
    then 2
    else if nat_eq (code c) 51
    then 3
    else if nat_eq (code c) 52
    then 4
    else if nat_eq (code c) 53
    then 5
    else 0

-- The text up to a first part that was found, or all of it.
abbrev first_part : Line → Option (Line × Line) → Line
first_part whole none = whole
first_part whole (some (before, rest)) = before

abbrev joined : Line → Option (Line × Line) → Option (Line × Line)
joined before none = none
joined before (some (inside, rest)) = some (before ++ inside, rest)

-- line[:splitIdx] and line[splitIdx:], with the last "}" at or behind the first "{".
abbrev split_of_brace : Line → Option (Line × Line) → Option (Line × Line)
split_of_brace line none = split_first 32 line
split_of_brace line (some (before, braces)) = joined before (split_last 125 braces)

unfoldable pub split_line : Line → Option (Line × Line)
split_line line = split_of_brace line (split_first 123 line)

-- The first word of the text behind the split.
unfoldable pub value_text : Line → Line
value_text rest = first_part (trim_space rest) (split_first 32 (trim_space rest))

module _ {F : Type 0} ⦃fl : Float F⦄ where
  abbrev parsed_value : Line → F × Bool → Option (Line × F)
  parsed_value name (value, ok) =
      if ok && fl.is_finite value
      then some (trim_space (first_part name (split_first 123 name)), value)
      else none

  abbrev value_of : Option (Line × Line) → Option (Line × F)
  value_of none = none
  value_of (some (name, [])) = none
  value_of (some (name, c ∷ cs)) = parsed_value name (fl.parse (of_list (value_text (c ∷ cs))))

  -- The name and the value; none is the source's false.
  unfoldable pub parse_prom_line : Line → Option (Line × F)
  unfolding split_line value_text
  parse_prom_line line = value_of (split_line line)

  -- The switch on the class of a request.
  unfoldable pub add_requests : ℕ → F → CounterSnapshot F → CounterSnapshot F
  add_requests class value snap =
      if nat_eq class 2
      then record snap { rq_2xx = fl.add snap.rq_2xx value; rq_total = fl.add snap.rq_total value }
      else if nat_eq class 3
      then record snap { rq_3xx = fl.add snap.rq_3xx value; rq_total = fl.add snap.rq_total value }
      else if nat_eq class 4
      then record snap { rq_4xx = fl.add snap.rq_4xx value; rq_total = fl.add snap.rq_total value }
      else if nat_eq class 5
      then record snap { rq_5xx = fl.add snap.rq_5xx value; rq_total = fl.add snap.rq_total value }
      else snap

  unfoldable pub add_shed : Option (Line × F) → CounterSnapshot F → CounterSnapshot F
  add_shed none snap = snap
  add_shed (some (name, value)) snap = record snap { shed_total = fl.add snap.shed_total value }

  unfoldable pub add_line : Line → Option (Line × F) → CounterSnapshot F → CounterSnapshot F
  unfolding extract_label http_class add_requests
  add_line line none snap = snap
  add_line line (some (name, value)) snap =
      add_requests (http_class (extract_label line "response_code")) value snap

  -- The loop body for a line.
  unfoldable pub read_line : Line → CounterSnapshot F → CounterSnapshot F
  unfolding parse_prom_line add_shed add_line
  read_line line snap =
      if has_prefix line (chars "#") || not (is_nonempty (trim_space line))
      then snap
      else if has_prefix line (chars metric_admission_rq_shed)
      then add_shed (parse_prom_line line) snap
      else if has_prefix line (chars metric_requests)
      then add_line line (parse_prom_line line) snap
      else snap

  unfoldable pub read_lines : List Line → CounterSnapshot F → CounterSnapshot F
  unfolding read_line
  read_lines [] snap = snap
  read_lines (line ∷ lines) snap = read_lines lines (read_line line snap)

  abbrev pub empty_snapshot : ℕ → CounterSnapshot F
  empty_snapshot now = record {
    rq_total = fl.of_int (pos 0);
    rq_2xx = fl.of_int (pos 0);
    rq_3xx = fl.of_int (pos 0);
    rq_4xx = fl.of_int (pos 0);
    rq_5xx = fl.of_int (pos 0);
    shed_total = fl.of_int (pos 0);
    scraped_at = now;
  }

  unfoldable pub parse_metrics : ℕ → String → CounterSnapshot F
  unfolding read_lines
  parse_metrics now body = read_lines (lines_of (chars body)) (empty_snapshot now)

  abbrev of_body : ℕ → Option String → Option (CounterSnapshot F)
  of_body now none = none
  of_body now (some body) = some (parse_metrics now body)

  -- scrapePod on the answer to its request: none is an error, else the status of the response and what
  -- reading its body gives, which is at most 4 MiB.
  unfoldable pub scrape_pod : ℕ → Option (ℕ × Option String) → Option (CounterSnapshot F)
  unfolding parse_metrics
  scrape_pod now none = none
  scrape_pod now (some (status, body)) = if nat_eq status 200 then of_body now body else none
