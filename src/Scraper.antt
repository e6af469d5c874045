-- ===== src/Scraper.antt =====
-- internal/signal/scraper.go: ReadSignals over what the scrape of each pod gives.
pub mod Visits
pub mod Shared
pub mod Twice
pub mod Text
pub mod Parser
use shedpilot.Common.{
  String, Bool, true, false, not, Option, none, some, List, [], ◌∷◌, ℕ, suc, ◌-◌, ◌/◌, ◌%◌, ℤ, pos,
  sub_ℕ, ltb_ℤ, leb_ℤ, ltb, nat_eq, any, is_nonempty, ◌==◌, ◌||◌, ◌&&◌, if◌then◌else◌,
}
use shedpilot.Common.Dict.{Dict, lookup, insert, is_some}
use shedpilot.Common.Float.{Float}
use shedpilot.Api.{AdaptivePolicy, HttpStatusRange}
use shedpilot.Trigger.Types.{Signals}

-- The counters of a pod; the time is nanoseconds.
pub record CounterSnapshot (F : Type 0) : Type 0 where
  pub rq_total : F
  pub rq_2xx : F
  pub rq_3xx : F
  pub rq_4xx : F
  pub rq_5xx : F
  pub shed_total : F
  pub scraped_at : ℕ

-- A pod that was listed: whether it runs and has an address, and what scraping it gives.
pub record Pod (F : Type 0) : Type 0 where
  pub name : String
  pub ready : Bool
  pub scrape : Option (CounterSnapshot F)

-- The class stands for its first code.
pub status_class_in_success_ranges : ℤ → List HttpStatusRange → Bool
status_class_in_success_ranges representative ranges =
    any (λ r. leb_ℤ r.start representative && leb_ℤ representative r.end) ranges

-- The success codes of the policy, or 100 to 399.
unfoldable pub configured_ranges : AdaptivePolicy → List HttpStatusRange
configured_ranges policy = elim policy.spec.admission_control [
  | none ↦ record { start = pos 100; end = pos 399 } ∷ []
  | some c ↦
      if is_nonempty c.success_codes
      then c.success_codes
      else record { start = pos 100; end = pos 399 } ∷ []
]

-- What the loop over the pods adds up.
pub record Totals (F : Type 0) : Type 0 where
  pub previous : Dict (CounterSnapshot F)
  pub requests : F
  pub successes : F
  pub shed : F
  pub scraped_pods : ℕ

pub record Reading (F : Type 0) : Type 0 where
  pub signals : Signals F
  pub failed : Bool
  pub snapshots : Dict (CounterSnapshot F)

module _ {F : Type 0} where
  -- The oldest time of a snapshot of the pods, and at most the ceiling.
  abbrev pub older : Option (CounterSnapshot F) → ℕ → ℕ
  older none oldest = oldest
  older (some snap) oldest = if ltb snap.scraped_at oldest then snap.scraped_at else oldest

  unfoldable pub oldest_previous_timestamp : List (Pod F) → Dict (CounterSnapshot F) → ℕ → ℕ
  oldest_previous_timestamp [] previous oldest = oldest
  oldest_previous_timestamp (pod ∷ pods) previous oldest =
      oldest_previous_timestamp pods previous (older (lookup pod.name previous) oldest)

  -- The interval in nanoseconds that the rates are over.
  unfoldable pub interval : ℕ → List (Pod F) → Dict (CounterSnapshot F) → ℕ
  unfolding oldest_previous_timestamp
  interval now pods previous =
      let since = now - oldest_previous_timestamp pods previous now in
      if ltb since 1000000000 then 30000000000 else since

  -- The entries of the pods that were listed.
  unfoldable pub prune : List (Pod F) → Dict (CounterSnapshot F) → Dict (CounterSnapshot F)
  prune pods [] = []
  prune pods (entry ∷ rest) =
      let kept = prune pods rest in
      if any (λ (pod : Pod F). pod.name == entry.0) pods then entry ∷ kept else kept

module _ {F : Type 0} ⦃fl : Float F⦄ where
  abbrev zero_f : F
  zero_f = fl.of_int (pos 0)

  unfoldable pub non_neg_delta : F → F → F
  non_neg_delta current prev =
      if fl.lt zero_f (fl.sub current prev) then fl.sub current prev else zero_f

  -- The successes of a pod, class by class.
  pub success_delta : List HttpStatusRange → CounterSnapshot F → CounterSnapshot F → F
  unfolding status_class_in_success_ranges non_neg_delta
  success_delta ranges current prev =
      let counted = λ (class : ℤ) (now before sum : F).
        if status_class_in_success_ranges class ranges
        then fl.add sum (non_neg_delta now before)
        else sum in
      counted (pos 500) current.rq_5xx prev.rq_5xx (
        counted (pos 400) current.rq_4xx prev.rq_4xx (
          counted (pos 300) current.rq_3xx prev.rq_3xx
            (counted (pos 200) current.rq_2xx prev.rq_2xx zero_f)))

  -- The deltas of a pod that was scraped before, unless the scrapes are too close or a counter was reset.
  unfoldable pub add_deltas :
      List HttpStatusRange → CounterSnapshot F → Option (CounterSnapshot F) → Totals F → Totals F
  unfolding success_delta
  add_deltas ranges current none t = t
  add_deltas ranges current (some prev) t =
      if ltb_ℤ (sub_ℕ current.scraped_at prev.scraped_at) (pos 100000000)
        || fl.lt (fl.sub current.rq_total prev.rq_total) zero_f
      then t
      else record t {
        requests = fl.add t.requests (fl.sub current.rq_total prev.rq_total);
        successes = fl.add t.successes (success_delta ranges current prev);
        shed = fl.add t.shed (non_neg_delta current.shed_total prev.shed_total);
        scraped_pods = suc t.scraped_pods;
      }

  abbrev pub scraped : Bool → Option (CounterSnapshot F) → Option (CounterSnapshot F)
  scraped true scrape = scrape
  scraped false scrape = none

  abbrev pub visit_scraped :
      List HttpStatusRange → String → Option (CounterSnapshot F) → Totals F → Totals F
  visit_scraped ranges name none t = t
  visit_scraped ranges name (some current) t =
      add_deltas ranges current (lookup name t.previous)
        (record t { previous = insert name current t.previous })

  -- The loop body for a pod.
  unfoldable pub visit : List HttpStatusRange → Pod F → Totals F → Totals F
  visit ranges pod t = visit_scraped ranges pod.name (scraped pod.ready pod.scrape) t

  unfoldable pub visit_all : List HttpStatusRange → List (Pod F) → Totals F → Totals F
  visit_all ranges [] t = t
  visit_all ranges (pod ∷ pods) t = visit_all ranges pods (visit ranges pod t)

  unfoldable pub seconds_f : ℕ → F
  seconds_f ns =
      fl.add (fl.of_int (pos (ns / 1000000000)))
        (fl.div (fl.of_int (pos (ns % 1000000000))) (fl.constant 1000000000 0))

  abbrev pub safe_defaults : ℕ → Signals F
  safe_defaults now = record {
    success_rate = fl.constant 99 2;
    service_latency_ms = zero_f;
    total_latency_ms = zero_f;
    rps = zero_f;
    sample_count = pos 0;
    collected_at = now;
    shed_rejected_rps = zero_f;
  }

  -- The share of successes, at most 1.
  unfoldable pub capped : F → F
  capped rate = if fl.lt (fl.of_int (pos 1)) rate then fl.of_int (pos 1) else rate

  unfoldable pub signals_of : ℕ → ℕ → Totals F → Signals F
  unfolding capped seconds_f
  signals_of now ns t =
      if nat_eq t.scraped_pods 0 || fl.lt t.requests (fl.of_int (pos 1))
      then safe_defaults now
      else record {
        success_rate = capped (fl.div t.successes t.requests);
        service_latency_ms = zero_f;
        total_latency_ms = zero_f;
        rps = fl.div t.requests (seconds_f ns);
        sample_count = fl.to_int t.requests;
        collected_at = now;
        shed_rejected_rps = fl.div t.shed (seconds_f ns);
      }

  abbrev pub none_yet : Dict (CounterSnapshot F) → Totals F
  none_yet previous = record {
    previous = previous;
    requests = zero_f;
    successes = zero_f;
    shed = zero_f;
    scraped_pods = 0;
  }

  -- The listed pods, none where the listing fails.
  unfoldable pub read_signals :
      ℕ → List HttpStatusRange → Option (List (Pod F)) → Dict (CounterSnapshot F) → Reading F
  unfolding visit_all visit add_deltas prune interval signals_of
  read_signals now ranges none previous = record {
    signals = safe_defaults now;
    failed = true;
    snapshots = previous;
  }
  read_signals now ranges (some []) previous = record {
    signals = safe_defaults now;
    failed = true;
    snapshots = previous;
  }
  read_signals now ranges (some (pod ∷ pods)) previous =
      let all = pod ∷ pods in
      let t = visit_all ranges all (none_yet previous) in
      let kept = prune all t.previous in
      record {
        signals = signals_of now (interval now all kept) t;
        failed = false;
        snapshots = kept;
      }
