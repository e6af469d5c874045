-- ===== src/Poller/Run/Agrees.antt =====
-- The signal that waits in the channel, and the state of the poller.
use shedpilot.Common.{
  ap, sym, ◌∙◌, ◌≡◌, ◌≢◌, ℤ, Bool, true, false, Option, none, some, List, [], ◌∷◌, pos, leb_ℤ,
  arith, Bool-cases, inl, inr, if◌then◌else◌,
}
use shedpilot.Common.Float.{Float}
use shedpilot.Api.{AdaptivePolicy}
use shedpilot.Trigger.Types.{Signals}
use shedpilot.Common.Dict.{Dict}
use shedpilot.Scraper.{CounterSnapshot}
use shedpilot.Poller.Config.{PollerConfig, InRange, with_defaults-InRange}
use shedpilot.Poller.Channel.{receive, send_lem}
use shedpilot.Poller.Tick.{BreachState, tick, is_breaching, debounce, counted, settle}
use shedpilot.Poller.Run.{
  Poller, Running, Event, ticked, taken, cancelled, new_poller, started, take_signal, sent,
  after_scrape, poll, run,
}

module _ {F : Type 0} ⦃fl : Float F⦄ where
  -- A signal that waits breaches exactly if the poller's flag is on.
  pub record Agrees (p : Poller F) : Type 0 where
    pub range : InRange p.cfg
    pub agrees :
        (sig : Signals F)
        → p.out ≡ some sig
        → is_breaching p.policy.spec.triggers sig ≡ p.state.firing

not_zero : (x : ℤ) → leb_ℤ (pos 1) x ≡ true → leb_ℤ x (pos 0) ≡ false
not_zero x h = ground arith

firing-sent :
    (cfg : PollerConfig) (breaching : Bool) (s : BreachState)
    → InRange cfg
    → (debounce cfg breaching s).1 ≡ true
    → breaching ≡ (debounce cfg breaching s).0.firing
unfolding debounce counted settle
firing-sent cfg true s r sends =
    let low = not_zero cfg.consecutive_recoveries r.recoveries_low in
    elim (Bool-cases s.firing) [
      | inl f ↦ ground (arith, f, sends, low)
      | inr f ↦ ground (arith, f, sends, low)
    ]
firing-sent cfg false s r sends =
    let low = not_zero cfg.consecutive_breaches r.breaches_low in
    elim (Bool-cases s.firing) [
      | inl f ↦ ground (arith, f, sends, low)
      | inr f ↦ ground (arith, f, sends, low)
    ]

firing-kept :
    (cfg : PollerConfig) (breaching : Bool) (s : BreachState)
    → (debounce cfg breaching s).1 ≡ false
    → (debounce cfg breaching s).0.firing ≡ s.firing
unfolding debounce counted settle
firing-kept cfg true s quiet = ground arith
firing-kept cfg false s quiet = ground arith

abbrev or_default {ℓ} : {A : Type ℓ} → A → Option A → A
or_default a none = a
or_default a (some b) = b

some_eq {ℓ} : {A : Type ℓ} (a b : A) → some a ≡ some b → a ≡ b
some_eq a b e = ap (or_default a) e

module _ {F : Type 0} ⦃fl : Float F⦄ where
  none-some : (sig : Signals F) → Option.none ≢ some sig
  none-some sig = ground arith

  pub none_waits : (out : Option (Signals F)) (sig : Signals F) → (receive out).0 ≢ some sig
  unfolding receive
  none_waits none sig = none-some sig
  none_waits (some old) sig = none-some sig

  pub after_scrape-Agrees :
      (early late : Bool) (scrape : Option (Signals F)) (p : Poller F)
      → Agrees p
      → Agrees (after_scrape early late scrape p)
  unfolding after_scrape tick
  after_scrape-Agrees early late none p h = record { range = h.range; agrees = h.agrees }
  after_scrape-Agrees early late (some signals) p h =
      let breaching = is_breaching p.policy.spec.triggers signals in
      elim (Bool-cases (debounce p.cfg breaching p.state).1) [
        | inl e ↦
            let new = send_lem early late signals p.out in
            record {
              range = h.range;
              agrees = λ sig waits.
                  let shown : sent early late
                        (if (debounce p.cfg breaching p.state).1 then some signals else none) p.out
                      ≡ some sig =
                    waits in
                  let same = some_eq signals sig (sym new ∙ rw e at shown) in
                  ap (is_breaching p.policy.spec.triggers) (sym same)
                  ∙ firing-sent p.cfg breaching p.state h.range e;
            }
        | inr e ↦ record {
          range = h.range;
          agrees = λ sig waits.
              let shown : sent early late
                    (if (debounce p.cfg breaching p.state).1 then some signals else none) p.out
                  ≡ some sig =
                waits in
              h.agrees sig (rw e at shown) ∙ sym (firing-kept p.cfg breaching p.state e);
        }
      ]

  take_signal-Agrees : (r : Running F) → Agrees r.poller → Agrees (take_signal r).poller
  unfolding take_signal
  take_signal-Agrees r h = record {
    range = h.range;
    agrees = λ sig waits. absurd (none_waits r.poller.out sig waits);
  }

  run-Agrees :
      (events : List (Event F)) (r : Running F) → Agrees r.poller → Agrees (run events r).poller
  unfolding run poll
  run-Agrees [] r h = h
  run-Agrees (ticked now pods early late ∷ events) r h =
      run-Agrees events (poll now pods early late r) (after_scrape-Agrees early late _ r.poller h)
  run-Agrees (taken ∷ events) r h = run-Agrees events (take_signal r) (take_signal-Agrees r h)
  run-Agrees (cancelled ∷ events) r h = h

  pub new_poller-Agrees :
      (policy : AdaptivePolicy) (cfg : PollerConfig) → Agrees (new_poller {F = F} policy cfg)
  unfolding new_poller
  new_poller-Agrees policy cfg = record {
    range = with_defaults-InRange cfg;
    agrees = λ sig waits. absurd (none-some sig waits);
  }

  -- Whatever a new poller has met, ticks with whatever scrapes, receives between the steps of a send or
  -- between ticks, and the end of its context: the signal that waits in its channel breaches exactly if
  -- its flag is on.
  run-new_poller :
      (policy : AdaptivePolicy) (cfg : PollerConfig) (snapshots : Dict (CounterSnapshot F))
      (events : List (Event F)) (sig : Signals F)
      → (run events (started policy cfg snapshots)).poller.out ≡ some sig
      → is_breaching (run events (started policy cfg snapshots)).poller.policy.spec.triggers sig
        ≡ (run events (started policy cfg snapshots)).poller.state.firing
  run-new_poller policy cfg snapshots events sig waits =
      (run-Agrees events (started policy cfg snapshots) (new_poller-Agrees policy cfg)).agrees sig
        waits
