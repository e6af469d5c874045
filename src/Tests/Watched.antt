-- ===== src/Tests/Watched.antt =====
-- A poller that fires, and the reconcile that takes its signal.
use shedpilot.Common.{
  String, ap, ◌∙◌, sym, ◌≡◌, refl, true, false, Option, none, some, List, [], ◌∷◌, ℕ, ℤ, nat_eq,
  if◌then◌else◌,
}
use shedpilot.Common.Dict.{lookup, insert}
use shedpilot.Api.{TriggerConfig}
use shedpilot.Trigger.Types.{Signals}
use shedpilot.Poller.Run.{Poller, new_poller, after_scrape}
use shedpilot.Poller.Tick.{tick, is_breaching, debounce, counted, settle, breached, parse_float}
use shedpilot.Poller.Channel.{receive, send_non_blocking}
use shedpilot.Poller.Config.{with_defaults}
use shedpilot.Controller.Detection.{poller_config}
use shedpilot.Controller.Pollers.{Pollers, no_pollers, ensure_poller, start}
use shedpilot.Controller.Reconcile.Specs.{pollers-reconcile}
use shedpilot.Controller.Manager.{Env, Fetched, found, gone, unreachable, new_manager}
use shedpilot.Renderer.Detect.{istio, detect_and_build}
use shedpilot.System.Watched.{
  Watch, Watched, begun, ticked, reconciled, offered, reconcile_watched, tick_watched, Steady,
  feeds_after, waits_at, taken_at, overwritten,
}
use shedpilot.System.Watched.Judged.{Judged, polled-Judged}
use shedpilot.Tests.Thousandths.{thousandths, read}
use shedpilot.Tests.Trigger.{poor}
use shedpilot.Tests.Rtds.{at_start}
use shedpilot.Tests.Reconcile.{policy, firing, steps}

abbrev key : String
key = "production/payments"

abbrev quiet : Env ℤ
quiet = record (firing true) { polled = none }

abbrev idle : ℕ → Poller ℤ
idle id = new_poller policy (poller_config none)

abbrev at_first : Watch ℤ
at_first = record { manager = new_manager none at_start []; feeds = idle }

abbrev poll : Watch ℤ → Watch ℤ
poll = tick_watched 0 (some poor)

abbrev watched : Watch ℤ
watched = reconcile_watched quiet key at_first

abbrev fired : Watch ℤ
fired = poll (poll (poll watched))

-- What a reconcile of the policy is offered, from the pollers before it.
abbrev offered_from : Pollers → (ℕ → Poller ℤ) → Option (Signals ℤ)
offered_from w feeds =
    let w' = ensure_poller key policy w in waits_at (lookup key w'.pollers) (feeds_after w w' feeds)

offered-acting :
    (env : Env ℤ) (s : Watch ℤ)
    → env.fetched ≡ found policy
    → detect_and_build env.cluster policy ≡ some istio
    → offered env key s ≡ offered_from s.manager.pollers s.feeds
unfolding offered steps
offered-acting env s read meshed =
    ap (λ w. waits_at (lookup key w.pollers) (feeds_after s.manager.pollers w s.feeds))
      (pollers-reconcile env key s.manager policy istio read refl meshed)

nothing_offered : offered quiet key at_first ≡ none
unfolding new_manager steps ensure_poller start new_poller with_defaults poller_config insert
    waits_at
nothing_offered = offered-acting quiet at_first refl refl

-- The poller's own part of that reconcile, from the pollers after it.
abbrev feeds_then : Pollers → ℕ → Poller ℤ
feeds_then w =
    overwritten (found policy) no_pollers
      (taken_at (lookup key w.pollers) (feeds_after no_pollers w idle))

abbrev polls : (ℕ → Poller ℤ) → ℕ → Poller ℤ
polls feeds i = if nat_eq i 0 then after_scrape false false (some poor) (feeds i) else feeds i

offered_then :
    offered (firing true) key fired
    ≡ offered_from
        (ensure_poller key policy no_pollers)
        (polls (polls (polls (feeds_then (ensure_poller key policy no_pollers)))))
unfolding reconcile_watched tick_watched steps new_manager
offered_then =
    offered-acting (firing true) fired refl refl
    ∙ ap (λ w. offered_from w (polls (polls (polls (feeds_then w)))))
        (pollers-reconcile quiet key at_first.manager policy istio refl refl refl)

fires :
    offered_from
      (ensure_poller key policy no_pollers)
      (polls (polls (polls (feeds_then (ensure_poller key policy no_pollers)))))
    ≡ some poor
unfolding ensure_poller start new_poller with_defaults poller_config insert lookup waits_at taken_at
    overwritten after_scrape tick debounce counted settle is_breaching breached parse_float
    send_non_blocking receive read
fires = refl

runs_then : watched.manager.pollers.runs 0 ≡ true
unfolding reconcile_watched steps new_manager ensure_poller start insert
runs_then =
    ap (λ (w : Pollers). w.runs 0)
      (pollers-reconcile quiet key at_first.manager policy istio refl refl refl)

abbrev triggers_in : Fetched → List TriggerConfig
triggers_in (found p) = p.spec.triggers
triggers_in gone = []
triggers_in unreachable = []

steady : (env : Env ℤ) → triggers_in env.refetched ≡ triggers_in env.fetched → Steady env
steady env same read again first second = ap triggers_in (sym second) ∙ same ∙ ap triggers_in first

Watched-fired : Watched none at_start [] ((quiet, key) ∷ []) fired
unfolding tick_watched
Watched-fired =
    let one =
      reconciled [] quiet key at_first (begun idle) (sym nothing_offered) (steady quiet refl) in
    let two = ticked _ 0 (some poor) watched one runs_then in
    let three = ticked _ 0 (some poor) (poll watched) two runs_then in
    ticked _ 0 (some poor) (poll (poll watched)) three runs_then

-- The policy's poller has fired at the third poor scrape, and the reconcile takes its signal.
polled-Judged_example : Judged (firing true) key policy poor fired
unfolding steps
polled-Judged_example =
    polled-Judged none at_start [] ((quiet, key) ∷ []) fired (firing true) key policy istio poor
      Watched-fired refl refl refl (λ same. refl, tt) (sym (offered_then ∙ fires)) refl
