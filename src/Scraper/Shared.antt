-- ===== src/Scraper/Shared.antt =====
-- Two policies whose pods are read in turn by one scraper.
use shedpilot.Common.{
  String, pos, ap, ◌∙◌, ◌≡◌, refl, false, Option, none, some, List, [], ◌∷◌, ℕ, arith, eq_iff, ◌==◌,
  All,
}
use shedpilot.Common.Dict.{Dict, lookup, insert, lookup-insert}
use shedpilot.Common.Float.{Float}
use shedpilot.Api.{AdaptivePolicy, HttpStatusRange}
use shedpilot.Trigger.Types.{Signals, State}
use shedpilot.Trigger.Evaluate.{evaluate}
use shedpilot.Scraper.{
  CounterSnapshot, Pod, Totals, add_deltas, visit, visit_all, none_yet, read_signals, safe_defaults,
  signals_of, scraped, visit_scraped,
}
use shedpilot.Scraper.Visits.{is_listed, snapshots-read_signals}

-- The pods have different names.
abbrev pub Distinct : {F : Type 0} → List (Pod F) → Type 0
Distinct [] = Unit
Distinct (pod ∷ pods) = (is_listed pod.name pods ≡ false) × Distinct pods

-- The pods have no snapshot.
abbrev Unseen : {F : Type 0} → Dict (CounterSnapshot F) → List (Pod F) → Type 0
Unseen previous pods = All (λ pod. lookup pod.name previous ≡ none) pods

module _ {F : Type 0} where
  Unseen-insert :
      (name : String) (snap : CounterSnapshot F) (pods : List (Pod F))
      (previous : Dict (CounterSnapshot F))
      → is_listed name pods ≡ false
      → Unseen previous pods
      → Unseen (insert name snap previous) pods
  Unseen-insert name snap [] previous other unseen = tt
  Unseen-insert name snap (p ∷ pods) previous other unseen =
      let put = lookup-insert name p.name snap previous in
      let apart : (name == p.name) ≡ false =
        ground (arith, other, eq_iff name p.name, eq_iff p.name name) in
      (put ∙ rw apart unseen.0, Unseen-insert name snap pods previous (ground arith) unseen.1)

  -- What a reading of other pods leaves has no snapshot of these.
  Unseen-elsewhere :
      (others pods : List (Pod F)) (previous : Dict (CounterSnapshot F))
      → ((name : String) → is_listed name others ≡ false → lookup name previous ≡ none)
      → All (λ (pod : Pod F). is_listed pod.name others ≡ false) pods
      → Unseen previous pods
  Unseen-elsewhere others [] previous only apart = tt
  Unseen-elsewhere others (p ∷ pods) previous only apart =
      (only p.name apart.0, Unseen-elsewhere others pods previous only apart.1)

module _ {F : Type 0} ⦃fl : Float F⦄ (ranges : List HttpStatusRange) where
  visit_scraped-Unseen :
      (name : String) (scrape : Option (CounterSnapshot F)) (pods : List (Pod F)) (t : Totals F)
      → is_listed name pods ≡ false
      → lookup name t.previous ≡ none
      → Unseen t.previous pods
      → ((visit_scraped ranges name scrape t).scraped_pods ≡ t.scraped_pods)
        × Unseen (visit_scraped ranges name scrape t).previous pods
  unfolding add_deltas
  visit_scraped-Unseen name none pods t other new unseen = (refl, unseen)
  visit_scraped-Unseen name (some current) pods t other new unseen =
      rw new (refl, Unseen-insert name current pods t.previous other unseen)

  visit_all-Unseen :
      (pods : List (Pod F)) (t : Totals F)
      → Distinct pods
      → Unseen t.previous pods
      → (visit_all ranges pods t).scraped_pods ≡ t.scraped_pods
  unfolding visit_all visit
  visit_all-Unseen [] t distinct unseen = refl
  visit_all-Unseen (pod ∷ pods) t distinct unseen =
      let step =
        visit_scraped-Unseen pod.name (scraped pod.ready pod.scrape) pods t distinct.0 unseen.0
          unseen.1 in
      visit_all-Unseen pods (visit ranges pod t) distinct.1 step.1 ∙ step.0

module _ {F : Type 0} ⦃fl : Float F⦄ where
  starved :
      (now : ℕ) (ranges : List HttpStatusRange) (pod : Pod F) (pods : List (Pod F))
      (previous : Dict (CounterSnapshot F))
      → Distinct (pod ∷ pods)
      → Unseen previous (pod ∷ pods)
      → (read_signals now ranges (some (pod ∷ pods)) previous).signals ≡ safe_defaults now
  unfolding read_signals signals_of
  starved now ranges pod pods previous distinct unseen =
      let none_scraped = visit_all-Unseen ranges (pod ∷ pods) (none_yet previous) distinct unseen in
      rw none_scraped refl

  -- The second of two readings by one scraper.
  abbrev pub signals_after :
      ℕ
      → ℕ
      → List HttpStatusRange
      → List HttpStatusRange
      → Pod F
      → Pod F
      → List (Pod F)
      → List (Pod F)
      → Dict (CounterSnapshot F)
      → Signals F
  signals_after now before ranges others_ranges other pod others pods previous =
      (read_signals now ranges (some (pod ∷ pods))
        (read_signals before others_ranges (some (other ∷ others)) previous).snapshots).signals

  unsampled :
      (now : ℕ) (policy : AdaptivePolicy) (sig : Signals F) (st : State)
      → sig.sample_count ≡ pos 0
      → ((evaluate now policy sig st).0.should_switch ≡ false)
        × ((evaluate now policy sig st).1 ≡ st)
  unfolding evaluate
  unsampled now policy sig st empty = rw empty (refl, refl)

  -- When one scraper reads the pods of one policy and then, for the first time since, those of another,
  -- the reading of the second gives the defaults, whatever its pods answer and however often they were
  -- read before, and no trigger of whatever policy is evaluated on it: the state stays, and nothing
  -- switches.
  pub evaluate-after_others :
      (now before : ℕ) (ranges others_ranges : List HttpStatusRange) (other pod : Pod F)
      (others pods : List (Pod F)) (previous : Dict (CounterSnapshot F)) (policy : AdaptivePolicy)
      (st : State)
      → Distinct (pod ∷ pods)
      → All (λ (p : Pod F). is_listed p.name (other ∷ others) ≡ false) (pod ∷ pods)
      → (signals_after now before ranges others_ranges other pod others pods previous
          ≡ safe_defaults now)
        × ((evaluate now policy
              (signals_after now before ranges others_ranges other pod others pods previous)
              st).0.should_switch
            ≡ false)
        × ((evaluate now policy
              (signals_after now before ranges others_ranges other pod others pods previous)
              st).1
            ≡ st)
  evaluate-after_others now before ranges others_ranges other pod others pods previous policy st
        distinct apart =
      let first = read_signals before others_ranges (some (other ∷ others)) previous in
      let unseen =
        Unseen-elsewhere (other ∷ others) (pod ∷ pods) first.snapshots
          (snapshots-read_signals before others_ranges other others previous) apart in
      let defaults = starved now ranges pod pods first.snapshots distinct unseen in
      let none_fires =
        unsampled now policy
          (signals_after now before ranges others_ranges other pod others pods previous) st
          (ap (λ (s : Signals F). s.sample_count) defaults) in
      (defaults, none_fires.0, none_fires.1)
