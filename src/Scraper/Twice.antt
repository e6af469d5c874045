-- ===== src/Scraper/Twice.antt =====
-- Two readings of the same pods, one after the other.
use shedpilot.Common.{
  String, ap, ◌∙◌, ◌≡◌, ◌≢◌, refl, true, false, some, List, [], ◌∷◌, map, ℕ, ◌≤◌, ◌+◌, All, arith,
  eq_iff, pos, sub_ℕ, ltb_ℤ, length,
}
use shedpilot.Common.Dict.{Dict, lookup, insert, lookup-insert}
use shedpilot.Common.Float.{Float}
use shedpilot.Api.{HttpStatusRange}
use shedpilot.Scraper.{
  CounterSnapshot, Pod, Totals, add_deltas, success_delta, non_neg_delta, visit, visit_all,
  none_yet, prune, interval, signals_of, read_signals,
}
use shedpilot.Scraper.Visits.{
  previous-add_deltas, is_listed, lookup-prune, ScrapedNow, interval-visit_all,
}

-- A pod with the counters that two readings of it gave.
pub record Seen (F : Type 0) : Type 0 where
  pub name : String
  pub before : CounterSnapshot F
  pub after : CounterSnapshot F

abbrev pub answering : {F : Type 0} → String → CounterSnapshot F → Pod F
answering name snap = record { name = name; ready = true; scrape = some snap }

module _ {F : Type 0} where
  -- No two pods have one name.
  abbrev pub Distinct : List (Seen F) → Type 0
  Distinct [] = Unit
  Distinct (s ∷ ss) = All (λ (o : Seen F). s.name ≢ o.name) ss × Distinct ss

  abbrev pub firsts : List (Seen F) → List (Pod F)
  firsts = map (λ s. answering s.name s.before)

  abbrev pub seconds : List (Seen F) → List (Pod F)
  seconds = map (λ s. answering s.name s.after)

  -- The snapshots are those of the reading before.
  abbrev Remembered : Dict (CounterSnapshot F) → Seen F → Type 0
  Remembered previous s = lookup s.name previous ≡ some s.before

  Remembered-insert :
      (name : String) (snap : CounterSnapshot F) (previous : Dict (CounterSnapshot F))
      (ss : List (Seen F))
      → All (λ (o : Seen F). name ≢ o.name) ss
      → All (Remembered previous) ss
      → All (Remembered (insert name snap previous)) ss
  Remembered-insert name snap previous [] apart h = tt
  Remembered-insert name snap previous (s ∷ ss) apart h = (
    lookup-insert name s.name snap previous ∙ ground (arith, eq_iff name s.name, apart.0, h.0),
    Remembered-insert name snap previous ss apart.1 h.1,
  )

  listed-cons :
      (pod : Pod F) (pods : List (Pod F)) (ss : List (Seen F))
      → All (λ (s : Seen F). is_listed s.name pods ≡ true) ss
      → All (λ (s : Seen F). is_listed s.name (pod ∷ pods) ≡ true) ss
  listed-cons pod pods [] h = tt
  listed-cons pod pods (s ∷ ss) h = (ground arith, listed-cons pod pods ss h.1)

  listed-firsts :
      (ss : List (Seen F)) → All (λ (s : Seen F). is_listed s.name (firsts ss) ≡ true) ss
  listed-firsts [] = tt
  listed-firsts (s ∷ ss) = (
    ground (arith, eq_iff s.name s.name),
    listed-cons (answering s.name s.before) (firsts ss) ss (listed-firsts ss),
  )

  Remembered-prune :
      (pods : List (Pod F)) (previous : Dict (CounterSnapshot F)) (ss : List (Seen F))
      → All (λ (s : Seen F). is_listed s.name pods ≡ true) ss
      → All (Remembered previous) ss
      → All (Remembered (prune pods previous)) ss
  Remembered-prune pods previous [] listed h = tt
  Remembered-prune pods previous (s ∷ ss) listed h = (
    lookup-prune pods s.name previous ∙ rw listed.0 h.0,
    Remembered-prune pods previous ss listed.1 h.1,
  )

module _ {F : Type 0} ⦃fl : Float F⦄ (ranges : List HttpStatusRange) where
  abbrev forget : Totals F → Totals F
  forget t = record t { previous = [] }

  -- The two scrapes are far enough apart, and no counter was reset.
  pub record Growing (s : Seen F) : Type 0 where
    pub apart : ltb_ℤ (sub_ℕ s.after.scraped_at s.before.scraped_at) (pos 100000000) ≡ false
    pub grown : fl.lt (fl.sub s.after.rq_total s.before.rq_total) (fl.of_int (pos 0)) ≡ false

  -- The differences of the counters, added up.
  abbrev pub sum_of : (Seen F → F) → List (Seen F) → F → F
  sum_of f [] sum = sum
  sum_of f (s ∷ ss) sum = sum_of f ss (fl.add sum (f s))

  abbrev pub growth : List (Seen F) → Totals F → Totals F
  growth ss t = record {
    previous = [];
    requests = sum_of (λ s. fl.sub s.after.rq_total s.before.rq_total) ss t.requests;
    successes = sum_of (λ s. success_delta ranges s.after s.before) ss t.successes;
    shed = sum_of (λ s. non_neg_delta s.after.shed_total s.before.shed_total) ss t.shed;
    scraped_pods = length ss + t.scraped_pods;
  }

  visit-Remembered :
      (s : Seen F) (t : Totals F)
      → Remembered t.previous s
      → Growing s
      → forget (visit ranges (answering s.name s.after) t) ≡ growth (s ∷ []) t
  unfolding visit add_deltas
  visit-Remembered s t h g = rw (h, g.apart, g.grown) (ground arith)

  previous-visit :
      (name : String) (snap : CounterSnapshot F) (t : Totals F)
      → (visit ranges (answering name snap) t).previous ≡ insert name snap t.previous
  unfolding visit
  previous-visit name snap t = previous-add_deltas ranges 0 snap (lookup name t.previous) _

  visit_all-growth :
      (ss : List (Seen F)) (t : Totals F)
      → Distinct ss
      → All Growing ss
      → All (Remembered t.previous) ss
      → forget (visit_all ranges (seconds ss) t) ≡ growth ss t
  unfolding visit_all
  visit_all-growth [] t d g h = ground arith
  visit_all-growth (s ∷ ss) t d g h =
      let t' = visit ranges (answering s.name s.after) t in
      let kept : All (Remembered t'.previous) ss =
        rw (previous-visit s.name s.after t)
          (Remembered-insert s.name s.after t.previous ss d.0 h.1) in
      visit_all-growth ss t' d.1 g.1 kept
      ∙ ap (growth ss) (visit-Remembered s t h.0 g.0)
      ∙ ap (λ n. record (growth (s ∷ ss) t) { scraped_pods = n }) (omega arith)

  untouched :
      (name : String) (ss : List (Seen F)) (t : Totals F)
      → All (λ (o : Seen F). name ≢ o.name) ss
      → lookup name (visit_all ranges (firsts ss) t).previous ≡ lookup name t.previous
  unfolding visit_all
  untouched name [] t apart = refl
  untouched name (s ∷ ss) t apart =
      untouched name ss (visit ranges (answering s.name s.before) t) apart.1
      ∙ ap (lookup name) (previous-visit s.name s.before t)
      ∙ lookup-insert s.name name s.before t.previous
      ∙ ground (arith, eq_iff s.name name, apart.0)

  visit_all-Remembered :
      (ss : List (Seen F)) (t : Totals F)
      → Distinct ss
      → All (Remembered (visit_all ranges (firsts ss) t).previous) ss
  unfolding visit_all
  visit_all-Remembered [] t d = tt
  visit_all-Remembered (s ∷ ss) t d =
      let t' = visit ranges (answering s.name s.before) t in
      (
        untouched s.name ss t' d.0
            ∙ ap (lookup s.name) (previous-visit s.name s.before t)
            ∙ lookup-insert s.name s.name s.before t.previous
            ∙ ground (arith, eq_iff s.name s.name),
        visit_all-Remembered ss t' d.1,
      )

  seconds-ScrapedNow :
      (now : ℕ) (ss : List (Seen F))
      → All (λ (s : Seen F). now ≤ s.after.scraped_at) ss
      → All (ScrapedNow now) (seconds ss)
  seconds-ScrapedNow now [] h = tt
  seconds-ScrapedNow now (s ∷ ss) h = (
    record { is_ready = refl; snap = s.after; answers = refl; fresh = h.0 },
    seconds-ScrapedNow now ss h.1,
  )

  -- The steps of a reading.
  reading :
      (now : ℕ) (pod : Pod F) (pods : List (Pod F)) (previous : Dict (CounterSnapshot F))
      → ((read_signals now ranges (some (pod ∷ pods)) previous).snapshots
          ≡ prune (pod ∷ pods) (visit_all ranges (pod ∷ pods) (none_yet previous)).previous)
        × ((read_signals now ranges (some (pod ∷ pods)) previous).signals
            ≡ signals_of now
                (interval now
                  (pod ∷ pods)
                  (prune (pod ∷ pods) (visit_all ranges (pod ∷ pods) (none_yet previous)).previous))
                (visit_all ranges (pod ∷ pods) (none_yet previous)))
  unfolding read_signals
  reading now pod pods previous = (refl, refl)

  signals_of-forget :
      (now ns : ℕ) (t : Totals F) → signals_of now ns t ≡ signals_of now ns (forget t)
  unfolding signals_of
  signals_of-forget now ns t = refl

  -- When the same pods are read twice, and answer with counters that grew: the signals of the second
  -- reading are the sums of the differences, over thirty seconds.
  pub signals-read_signals :
      (first second : ℕ) (s : Seen F) (ss : List (Seen F)) (previous : Dict (CounterSnapshot F))
      → Distinct (s ∷ ss)
      → All Growing (s ∷ ss)
      → All (λ (o : Seen F). second ≤ o.after.scraped_at) (s ∷ ss)
      → (read_signals second ranges
          (some (seconds (s ∷ ss)))
          (read_signals first ranges (some (firsts (s ∷ ss))) previous).snapshots).signals
        ≡ signals_of second 30000000000 (growth (s ∷ ss) (none_yet []))
  signals-read_signals first second s ss previous d g fresh =
      let all = s ∷ ss in
      let kept = prune (firsts all) (visit_all ranges (firsts all) (none_yet previous)).previous in
      let known : All (Remembered kept) all =
        Remembered-prune (firsts all) _ all (listed-firsts all)
          (visit_all-Remembered all (none_yet previous) d) in
      let t = visit_all ranges (seconds all) (none_yet kept) in
      let before = reading first (answering s.name s.before) (firsts ss) previous in
      let now = reading second (answering s.name s.after) (seconds ss) kept in
      ap (λ p. (read_signals second ranges (some (seconds all)) p).signals) before.0
      ∙ now.1
      ∙ ap (λ ns. signals_of second ns t)
          (interval-visit_all ranges second (seconds all) (none_yet kept)
            (seconds-ScrapedNow second all fresh))
      ∙ signals_of-forget second 30000000000 t
      ∙ ap (signals_of second 30000000000) (visit_all-growth all (none_yet kept) d g known)
