-- ===== src/Scraper/Visits.antt =====
-- What a reading leaves behind, and the interval that its rates are over.
use shedpilot.Common.{
  pos, nat_eq, ◌||◌, String, ap, ◌∙◌, ◌≡◌, refl, Bool, true, false, Option, none, some, List, [],
  ◌∷◌, ℕ, ◌≤◌, All, any, arith, eq_iff, Bool-cases, inl, inr, ◌==◌, if◌then◌else◌,
}
use shedpilot.Common.Dict.{Dict, lookup, insert, lookup-insert}
use shedpilot.Common.Float.{Float}
use shedpilot.Api.{HttpStatusRange}
use shedpilot.Scraper.{
  capped, signals_of, read_signals, none_yet, CounterSnapshot, Pod, Totals, older,
  oldest_previous_timestamp, interval, prune, add_deltas, visit, visit_all,
}

module _ {F : Type 0} where
  abbrev pub is_listed : String → List (Pod F) → Bool
  is_listed name = any (λ (pod : Pod F). pod.name == name)

  pruned_entry :
      (pods : List (Pod F)) (name other : String) (snap : CounterSnapshot F)
      (rest : Dict (CounterSnapshot F))
      → (name == other) ≡ true
      → is_listed name pods ≡ is_listed other pods
  pruned_entry pods name other snap rest e = ap (λ x. is_listed x pods) ((eq_iff name other).0 e)

  -- Pruning keeps the snapshots of the pods that are listed, and no others.
  pub lookup-prune :
      (pods : List (Pod F)) (name : String) (previous : Dict (CounterSnapshot F))
      → lookup name (prune pods previous)
        ≡ (if is_listed name pods then lookup name previous else none)
  unfolding prune lookup
  lookup-prune pods name [] = ground arith
  lookup-prune pods name (entry ∷ rest) =
      let rec = lookup-prune pods name rest in
      elim (Bool-cases (entry.0 == name)) [
        | inl same ↦
            let at = pruned_entry pods entry.0 name entry.1 rest same in
            elim (Bool-cases (is_listed name pods)) [
              | inl e ↦ rw (at, e, same) refl
              | inr e ↦ rw (at, e) (rw e at rec)
            ]
        | inr other ↦ elim (Bool-cases (is_listed entry.0 pods)) [
          | inl e ↦ rw (e, other) rec
          | inr e ↦ rw (e, other) rec
        ]
      ]

  -- A snapshot, if there is one, that is not older than the reading.
  abbrev Fresh : ℕ → Option (CounterSnapshot F) → Type 0
  Fresh now none = Unit
  Fresh now (some snap) = now ≤ snap.scraped_at

  older-Fresh : (now : ℕ) (o : Option (CounterSnapshot F)) → Fresh now o → older o now ≡ now
  older-Fresh now none h = refl
  older-Fresh now (some snap) h = ground arith

  oldest-Fresh :
      (now : ℕ) (pods : List (Pod F)) (previous : Dict (CounterSnapshot F))
      → All (λ (pod : Pod F). Fresh now (lookup pod.name previous)) pods
      → oldest_previous_timestamp pods previous now ≡ now
  unfolding oldest_previous_timestamp
  oldest-Fresh now [] previous h = refl
  oldest-Fresh now (pod ∷ pods) previous h =
      ap (oldest_previous_timestamp pods previous) (older-Fresh now (lookup pod.name previous) h.0)
      ∙ oldest-Fresh now pods previous h.1

  -- A pod that is ready and whose scrape gave a snapshot that is not older than the reading.
  pub record ScrapedNow (now : ℕ) (pod : Pod F) : Type 0 where
    pub is_ready : pod.ready ≡ true
    pub snap : CounterSnapshot F
    pub answers : pod.scrape ≡ some snap
    pub fresh : now ≤ snap.scraped_at

  if-Fresh :
      (now : ℕ) (b : Bool) (o other : Option (CounterSnapshot F))
      → Fresh now o
      → Fresh now other
      → Fresh now (if b then o else other)
  if-Fresh now true o other h k = h
  if-Fresh now false o other h k = k

module _ {F : Type 0} ⦃fl : Float F⦄ (ranges : List HttpStatusRange) (now : ℕ) where
  pub previous-add_deltas :
      (current : CounterSnapshot F) (o : Option (CounterSnapshot F)) (t : Totals F)
      → (add_deltas ranges current o t).previous ≡ t.previous
  unfolding add_deltas
  previous-add_deltas current none t = refl
  previous-add_deltas current (some prev) t = ground arith

  previous-visit :
      (pod : Pod F) (t : Totals F) (s : ScrapedNow now pod)
      → (visit ranges pod t).previous ≡ insert pod.name s.snap t.previous
  unfolding visit
  previous-visit pod t s = rw (s.is_ready, s.answers) (previous-add_deltas s.snap _ _)

  visit-Fresh :
      (pod : Pod F) (name : String) (t : Totals F)
      → ScrapedNow now pod
      → Fresh now (lookup name t.previous)
      → Fresh now (lookup name (visit ranges pod t).previous)
  visit-Fresh pod name t s h =
      rw (previous-visit pod t s, lookup-insert pod.name name s.snap t.previous)
        (if-Fresh now (pod.name == name) (some s.snap) (lookup name t.previous) s.fresh h)

  visited-Fresh :
      (pod : Pod F) (t : Totals F)
      → ScrapedNow now pod
      → Fresh now (lookup pod.name (visit ranges pod t).previous)
  visited-Fresh pod t s =
      rw
        (
          previous-visit pod t s,
          lookup-insert pod.name pod.name s.snap t.previous,
          (eq_iff pod.name pod.name).1 refl,
        )
        s.fresh

  visit_all-kept :
      (pods : List (Pod F)) (name : String) (t : Totals F)
      → All (ScrapedNow now) pods
      → Fresh now (lookup name t.previous)
      → Fresh now (lookup name (visit_all ranges pods t).previous)
  unfolding visit_all
  visit_all-kept [] name t s h = h
  visit_all-kept (pod ∷ pods) name t s h =
      visit_all-kept pods name (visit ranges pod t) s.1 (visit-Fresh pod name t s.0 h)

  visit_all-Fresh :
      (pods : List (Pod F)) (t : Totals F)
      → All (ScrapedNow now) pods
      → All (λ (pod : Pod F). Fresh now (lookup pod.name (visit_all ranges pods t).previous)) pods
  unfolding visit_all
  visit_all-Fresh [] t s = tt
  visit_all-Fresh (pod ∷ pods) t s = (
    visit_all-kept pods pod.name (visit ranges pod t) s.1 (visited-Fresh pod t s.0),
    visit_all-Fresh pods (visit ranges pod t) s.1,
  )

  pruned-Fresh :
      (all pods : List (Pod F)) (previous : Dict (CounterSnapshot F))
      → All (λ (pod : Pod F). Fresh now (lookup pod.name previous)) pods
      → All (λ (pod : Pod F). Fresh now (lookup pod.name (prune all previous))) pods
  pruned-Fresh all [] previous h = tt
  pruned-Fresh all (pod ∷ pods) previous h = (
    rw (lookup-prune all pod.name previous)
        (if-Fresh now (is_listed pod.name all) (lookup pod.name previous) none h.0 tt),
    pruned-Fresh all pods previous h.1,
  )

  -- When every listed pod is ready and answers, with a snapshot taken after the reading began, the
  -- rates are over thirty seconds, however long ago the reading before was.
  pub interval-visit_all :
      (pods : List (Pod F)) (t : Totals F)
      → All (ScrapedNow now) pods
      → interval now pods (prune pods (visit_all ranges pods t).previous) ≡ 30000000000
  unfolding interval
  interval-visit_all pods t s =
      let kept = prune pods (visit_all ranges pods t).previous in
      let fresh =
        pruned-Fresh pods pods (visit_all ranges pods t).previous (visit_all-Fresh pods t s) in
      rw (oldest-Fresh now pods kept fresh) (ground arith)

module _ {F : Type 0} ⦃fl : Float F⦄ where
  capped-bound : (rate : F) → fl.lt (fl.of_int (pos 1)) (capped rate) ≡ false
  unfolding capped
  capped-bound rate = elim (Bool-cases (fl.lt (fl.of_int (pos 1)) rate)) [
    | inl e ↦ rw e (fl.lt_irrefl (fl.of_int (pos 1)))
    | inr e ↦ rw e e
  ]

  signals_of-bound :
      (now ns : ℕ) (t : Totals F)
      → fl.lt (fl.of_int (pos 1)) (fl.constant 99 2) ≡ false
      → fl.lt (fl.of_int (pos 1)) (signals_of now ns t).success_rate ≡ false
  unfolding signals_of
  signals_of-bound now ns t usual =
      elim (Bool-cases (nat_eq t.scraped_pods 0 || fl.lt t.requests (fl.of_int (pos 1)))) [
        | inl e ↦ rw e usual
        | inr e ↦ rw e (capped-bound (fl.div t.successes t.requests))
      ]

  -- No reading has a success rate above 1, provided that 0.99 is not above 1.
  pub success_rate-read_signals :
      (now : ℕ) (ranges : List HttpStatusRange) (pods : Option (List (Pod F)))
      (previous : Dict (CounterSnapshot F))
      → fl.lt (fl.of_int (pos 1)) (fl.constant 99 2) ≡ false
      → fl.lt (fl.of_int (pos 1)) (read_signals now ranges pods previous).signals.success_rate
        ≡ false
  unfolding read_signals
  success_rate-read_signals now ranges none previous usual = usual
  success_rate-read_signals now ranges (some []) previous usual = usual
  success_rate-read_signals now ranges (some (pod ∷ pods)) previous usual =
      signals_of-bound now _ (visit_all ranges (pod ∷ pods) (none_yet previous)) usual

  -- After a reading of listed pods the scraper has snapshots of listed pods only.
  pub snapshots-read_signals :
      (now : ℕ) (ranges : List HttpStatusRange) (pod : Pod F) (pods : List (Pod F))
      (previous : Dict (CounterSnapshot F)) (name : String)
      → is_listed name (pod ∷ pods) ≡ false
      → lookup name (read_signals now ranges (some (pod ∷ pods)) previous).snapshots ≡ none
  unfolding read_signals
  snapshots-read_signals now ranges pod pods previous name unlisted =
      lookup-prune (pod ∷ pods) name _ ∙ rw unlisted refl
