-- ===== src/Scraper/Parser/Metrics.antt =====
-- The parser at a text that was printed from samples.
use Prim.Native.Char.{Char, code}
use text.Mathlib.TextBridge.{of_list}
use shedpilot.Common.{
  ap, ◌∙◌, ◌≡◌, refl, true, false, some, List, [], ◌∷◌, ◌++◌, ℕ, nat_eq, arith, if◌then◌else◌,
  is_nonempty, All,
}
use shedpilot.Common.Float.{Float}
use shedpilot.Scraper.{CounterSnapshot}
use shedpilot.Scraper.Text.{Line, chars, has_prefix, after_first, trim_space, lines_of, is_space}
use shedpilot.Scraper.Parser.{
  metric_admission_rq_shed, metric_requests, http_class, add_requests, add_shed, add_line,
  read_line, read_lines, parse_metrics, empty_snapshot, extract_label, parse_prom_line,
}
use shedpilot.Scraper.Parser.Lines.{has, sample_line, parse_prom_line-sample_line, append_assoc}
use shedpilot.Scraper.Parser.Labels.{extract_label-append}
use shedpilot.Scraper.Parser.Entries.{
  Entry, requests, shed, other, code_label, labels_of, print_entry, print_all, WellFormed, starts,
  is_classed, tally,
}

module _ {F : Type 0} ⦃fl : Float F⦄ where
  add_requests-http_class :
      (response : Line) (x : F) (snap : CounterSnapshot F)
      → add_requests (http_class response) x snap ≡ record {
        rq_total = if is_classed response then fl.add snap.rq_total x else snap.rq_total;
        rq_2xx = if starts 50 response then fl.add snap.rq_2xx x else snap.rq_2xx;
        rq_3xx = if starts 51 response then fl.add snap.rq_3xx x else snap.rq_3xx;
        rq_4xx = if starts 52 response then fl.add snap.rq_4xx x else snap.rq_4xx;
        rq_5xx = if starts 53 response then fl.add snap.rq_5xx x else snap.rq_5xx;
        shed_total = snap.shed_total;
        scraped_at = snap.scraped_at;
      }
  unfolding add_requests http_class
  add_requests-http_class [] x snap = refl
  add_requests-http_class (c ∷ cs) x snap = ground arith

abbrev tail : Line → Line
tail [] = []
tail (c ∷ line) = line

visible-trim_right :
    (c : Char) (line : Line) → is_space c ≡ false → is_nonempty (trim_space (c ∷ line)) ≡ true
visible-trim_right c line e = ground arith

lines_of-append :
    (line rest : Line)
    → has 10 line ≡ false
    → lines_of (line ++ (chars "\n" ++ rest)) ≡ line ∷ lines_of rest
lines_of-append [] rest free = refl
lines_of-append (c ∷ line) rest free =
    let later : has 10 line ≡ false = ground arith in
    let here : nat_eq (code c) 10 ≡ false = ground arith in
    rw (here, lines_of-append line rest later) refl

chars-of_list : (l : Line) → chars (of_list l) ≡ l
chars-of_list [] = refl
chars-of_list (c ∷ l) = ap (λ rest. c ∷ rest) (chars-of_list l)

module _ {F : Type 0} ⦃fl : Float F⦄ where
  read_line-requests :
      (line name : Line) (x : F) (snap : CounterSnapshot F)
      → has_prefix line (chars "#") ≡ false
      → is_nonempty (trim_space line) ≡ true
      → has_prefix line (chars metric_admission_rq_shed) ≡ false
      → has_prefix line (chars metric_requests) ≡ true
      → parse_prom_line line ≡ some (name, x)
      → read_line line snap ≡ add_requests (http_class (extract_label line "response_code")) x snap
  unfolding read_line add_line
  read_line-requests line name x snap comment visible not_shed here parsed =
      rw (comment, visible, not_shed, here, parsed) refl

  read_line-shed :
      (line name : Line) (x : F) (snap : CounterSnapshot F)
      → has_prefix line (chars "#") ≡ false
      → is_nonempty (trim_space line) ≡ true
      → has_prefix line (chars metric_admission_rq_shed) ≡ true
      → parse_prom_line line ≡ some (name, x)
      → read_line line snap ≡ record snap { shed_total = fl.add snap.shed_total x }
  unfolding read_line add_shed
  read_line-shed line name x snap comment visible here parsed =
      rw (comment, visible, here, parsed) refl

extract_label-labels_of :
    (pre response post value : Line)
    → after_first code_label (chars metric_requests ++ (pre ++ code_label)) ≡ some []
    → has 34 response ≡ false
    → extract_label
        (sample_line (chars "istio_requests_total") (labels_of pre response post) value)
        "response_code"
      ≡ response
extract_label-labels_of pre response post value first closed =
    let after = chars "} " ++ value in
    let inner = response ++ (chars "\"" ++ post) in
    let apart =
      append_assoc pre (code_label ++ inner) after
      ∙ ap (λ (l : Line). pre ++ (code_label ++ l))
          (append_assoc response (chars "\"" ++ post) after) in
    ap (λ (l : Line). extract_label (chars metric_requests ++ l) "response_code") apart
    ∙ extract_label-append (chars metric_requests ++ pre) response (post ++ after) "response_code"
        first closed

module _ {F : Type 0} ⦃fl : Float F⦄ where
  read_line-print_entry :
      (entry : Entry F) (snap : CounterSnapshot F)
      → WellFormed entry
      → read_line (print_entry entry) snap ≡ tally (entry ∷ []) snap
  unfolding read_line add_line add_shed
  read_line-print_entry (requests pre response post value x) snap (ok, first, closed, whole) =
      let labels = labels_of pre response post in
      let line = sample_line (chars "istio_requests_total") labels value in
      let parsed =
        parse_prom_line-sample_line (chars "istio_requests_total") labels value x refl ok.no_end
          ok.no_space ok.scans ok.finite in
      read_line-requests line _ x snap refl (visible-trim_right "i" (tail line) refl) refl refl
        parsed
      ∙ ap (λ (class : Line). add_requests (http_class class) x snap)
          (extract_label-labels_of pre response post value first closed)
      ∙ add_requests-http_class response x snap
  read_line-print_entry (shed suffix labels value x) snap (ok, plain, whole) =
      let line = sample_line (chars metric_admission_rq_shed ++ suffix) labels value in
      let parsed =
        parse_prom_line-sample_line (chars metric_admission_rq_shed ++ suffix) labels value x plain
          ok.no_end ok.no_space ok.scans ok.finite in
      read_line-shed line _ x snap refl (visible-trim_right "e" (tail line) refl) refl parsed
  read_line-print_entry (other line) snap (not_shed, not_requests, whole) =
      rw (not_shed, not_requests) (ground arith)

  unbroken : (entry : Entry F) → WellFormed entry → has 10 (print_entry entry) ≡ false
  unbroken (requests pre response post value x) (ok, first, closed, whole) = whole
  unbroken (shed suffix labels value x) (ok, plain, whole) = whole
  unbroken (other line) (not_shed, not_requests, whole) = whole

  tally-cons :
      (entry : Entry F) (entries : List (Entry F)) (snap : CounterSnapshot F)
      → tally entries (tally (entry ∷ []) snap) ≡ tally (entry ∷ entries) snap
  tally-cons (requests pre response post value x) entries snap = refl
  tally-cons (shed suffix labels value x) entries snap = refl
  tally-cons (other line) entries snap = refl

  read_lines-print_all :
      (entries : List (Entry F)) (snap : CounterSnapshot F)
      → All WellFormed entries
      → read_lines (lines_of (print_all entries)) snap ≡ tally entries snap
  unfolding read_lines
  read_lines-print_all [] snap fine = refl
  read_lines-print_all (entry ∷ entries) snap fine =
      let broken =
        lines_of-append (print_entry entry) (print_all entries) (unbroken entry fine.0) in
      rw broken (
        ap (read_lines (lines_of (print_all entries))) (read_line-print_entry entry snap fine.0)
        ∙ read_lines-print_all entries (tally (entry ∷ []) snap) fine.1
        ∙ tally-cons entry entries snap)

  -- The text of well-formed lines gives back what was printed: each count of requests in its class, the
  -- counts of shed requests, and nothing of the other lines, added up in order.
  pub parse_metrics-print_all :
      (now : ℕ) (entries : List (Entry F))
      → All WellFormed entries
      → parse_metrics now (of_list (print_all entries)) ≡ tally entries (empty_snapshot now)
  unfolding parse_metrics
  parse_metrics-print_all now entries fine =
      ap (λ (l : Line). read_lines (lines_of l) (empty_snapshot now))
        (chars-of_list (print_all entries))
      ∙ read_lines-print_all entries (empty_snapshot now) fine
