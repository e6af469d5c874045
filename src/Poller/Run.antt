-- ===== src/Poller/Run.antt =====
-- internal/signal/poller.go: Poller with NewPoller, Run and its tick over the shared scraper. What the
-- loop meets is a list of events: ticks, receives of the controller, the end of its context.
pub mod Agrees
use shedpilot.Common.{
  Bool, true, false, Option, none, some, List, [], ◌∷◌, ◌++◌, ◌≡◌, refl, ap, ◌∙◌, ℕ, if◌then◌else◌,
}
use shedpilot.Common.Dict.{Dict}
use shedpilot.Common.Float.{Float}
use shedpilot.Api.{AdaptivePolicy}
use shedpilot.Trigger.Types.{Signals}
use shedpilot.Scraper.{CounterSnapshot, Pod, Reading, read_signals, configured_ranges}
use shedpilot.Poller.Config.{PollerConfig, with_defaults}
use shedpilot.Poller.Channel.{receive, send_non_blocking}
use shedpilot.Poller.Tick.{BreachState, fresh, tick}

pub record Poller (F : Type 0) : Type 0 where
  pub cfg : PollerConfig
  pub policy : AdaptivePolicy
  -- the channel of capacity 1
  pub out : Option (Signals F)
  pub state : BreachState

-- A tick has its time, what listing the pods gives, and whether the controller receives between the
-- steps of a send.
pub data Event (F : Type 0) : Type 0 where
  ticked : ℕ → Option (List (Pod F)) → Bool → Bool → Event F
  taken cancelled : Event F

-- A poller, with the snapshots of the scraper that it uses.
pub record Running (F : Type 0) : Type 0 where
  pub poller : Poller F
  pub snapshots : Dict (CounterSnapshot F)

module _ {F : Type 0} where
  unfoldable pub new_poller : AdaptivePolicy → PollerConfig → Poller F
  unfolding with_defaults
  new_poller policy cfg = record {
    cfg = with_defaults cfg;
    policy = policy;
    out = none;
    state = fresh;
  }

  -- A new poller, with what its scraper holds when it starts.
  abbrev pub started : AdaptivePolicy → PollerConfig → Dict (CounterSnapshot F) → Running F
  started policy cfg snapshots = record { poller = new_poller policy cfg; snapshots = snapshots }

  -- The receive of the controller.
  unfoldable pub take_signal : Running F → Running F
  unfolding receive
  take_signal r = record r { poller = record r.poller { out = (receive r.poller.out).0 } }

  abbrev pub scraped : Reading F → Option (Signals F)
  scraped reading = if reading.failed then none else some reading.signals

  abbrev pub sent : Bool → Bool → Option (Signals F) → Option (Signals F) → Option (Signals F)
  sent early late none out = out
  sent early late (some sig) out = send_non_blocking early late sig out

module _ {F : Type 0} ⦃fl : Float F⦄ where
  -- The tick on a scrape.
  unfoldable pub after_scrape : Bool → Bool → Option (Signals F) → Poller F → Poller F
  unfolding tick
  after_scrape early late scrape p =
      let (state, sends) = tick p.cfg p.policy.spec.triggers scrape p.state in
      record p { state = state; out = sent early late sends p.out }

  unfoldable pub poll : ℕ → Option (List (Pod F)) → Bool → Bool → Running F → Running F
  unfolding read_signals configured_ranges after_scrape
  poll now pods early late r =
      let reading = read_signals now (configured_ranges r.poller.policy) pods r.snapshots in
      record {
        poller = after_scrape early late (scraped reading) r.poller;
        snapshots = reading.snapshots;
      }

  -- The loop, which ends with its context.
  unfoldable pub run : List (Event F) → Running F → Running F
  unfolding poll take_signal
  run [] r = r
  run (ticked now pods early late ∷ events) r = run events (poll now pods early late r)
  run (taken ∷ events) r = run events (take_signal r)
  run (cancelled ∷ events) r = r
