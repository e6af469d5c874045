-- ===== src/Tests/Reconcile.antt =====
-- The theorems on whole reconciles, at a policy whose first trigger fires at the second poor sample.
use shedpilot.Common.{
  String, sym, ◌≡◌, refl, Bool, true, false, not, none, some, List, [], ◌∷◌, ℤ, pos, arith, ◌==◌,
  ◌<>◌, ◌&&◌, if◌then◌else◌,
}
use shedpilot.Common.Dict.{Dict, lookup, insert}
use shedpilot.Api.{
  AdaptivePolicy, has_admission_control, has_triggers, is_human_override_enabled,
  effective_mesh_backend, has_streaming_protection, has_adaptive_concurrency, is_dry_run,
  effective_success_rate_threshold, active_profile_config,
}
use shedpilot.Trigger.Types.{Signals, State}
use shedpilot.Renderer.Result.{Resource}
use shedpilot.Renderer.Detect.{istio, detect_and_build, first_found}
use shedpilot.Renderer.Istio.Render as Istio
use shedpilot.Renderer.Istio.Render.{istio_detects}
use shedpilot.Renderer.Cilium.{cilium_detects}
use shedpilot.Renderer.Istio.{
  admission_control_name, adaptive_concurrency_name, stats_flush_name, skip_paths_name,
  streaming_protection_name,
}
use shedpilot.Controller.Pollers.{no_pollers}
use shedpilot.Controller.Pollers.OnePerKey.{OnePerKey}
use shedpilot.Controller.Validate.{
  validate_policy, with_profile, first_bad_trigger, first_bad_schedule, evaluate_and_switch,
  apply_decision,
}
use shedpilot.Controller.Prune.{is_rendered}
use shedpilot.Controller.Deliver.{apply_all, render_with}
use shedpilot.Controller.Manager.{new_manager, Manager, Env, found, gone, unreachable}
use shedpilot.Controller.Report.{record_of}
use shedpilot.Controller.FilterEffective.{
  watched, inactive, should_be_shedding, filter_is_ejecting, must_parse_percent,
}
use shedpilot.Controller.FilterEffective.Verdict.{Observation}
use shedpilot.Controller.Reconcile.Short.{unread}
use shedpilot.Controller.Reconcile.Verdicts.{
  observation, said, Observed, at_first, observed, cut_short, passed_by, said-verdict,
}
use shedpilot.Controller.Reconcile.{reconcile, switching, applied, collect}
use shedpilot.Controller.Reconcile.Stops.{Halted, reconcile-Halted}
use shedpilot.Controller.Reconcile.Acts.{Acts, managed}
use shedpilot.Controller.Reconcile.Level.{Level, Tracked, reconcile-Level, reconcile-forgets}
use shedpilot.Controller.Reconcile.Switch.{reconcile-Undelivered}
use shedpilot.Controller.Reconcile.Refused.{recorded, reconcile-Recorded}
use shedpilot.Controller.Reconcile.Recovers.{health, health-reconcile}
use shedpilot.Controller.Reconcile.Runs.{after_reconciles, after_reconciles-OnePerKey}
use shedpilot.Trigger.Condition.{ltgt}
use shedpilot.Tests.Thousandths.{thousandths, read, parsed}
use shedpilot.Tests.Trigger.{poor, evaluator}
use shedpilot.Tests.Rtds.{at_start}
use shedpilot.Tests.Controller.{complete, envoy_filter}

abbrev stale : Resource ℤ
stale = record {
  api_version = "networking.istio.io/v1alpha3";
  kind = "EnvoyFilter";
  name = "stale";
  namespace = "production";
  labels = [];
  owner_references = [];
  spec = [];
}

-- A policy whose status names a resource that is not rendered any more.
abbrev pub policy : AdaptivePolicy
policy = record complete {
  spec = record complete.spec { dry_run = false; mesh_backend = "istio" };
  status = record complete.status { managed_resources = envoy_filter "stale" ∷ [] };
}

abbrev pub once_poor : State
once_poor = record {
  consecutive_bad_samples = ("degrade", pos 1) ∷ [];
  last_trigger_fire_time = [];
  consecutive_filter_inactive = pos 0;
}

abbrev pub manager : Manager ℤ
manager = record {
  trigger_states = ("production/payments", once_poor) ∷ [];
  pollers = no_pollers;
  snapshots = [];
  rtds_client = none;
  world = at_start;
  objects = ("EnvoyFilter/stale", stale) ∷ [];
}

abbrev healthy : Signals ℤ
healthy = record poor { success_rate = pos 990 }

abbrev pub env : Signals ℤ → Bool → Bool → Env ℤ
env signals patched deletes = record {
  now = 9;
  texts = record { quote = λ s. s; sort_strings = λ ss. ss };
  fetched = found policy;
  cluster = record { istiod_phases = none; cilium_ready = none };
  polled = some signals;
  pods = none;
  patched = patched;
  refetched = found (with_profile "degraded" policy);
  answers = record { refuses = λ key. none; deletes = λ key. deletes };
}

-- Opening this runs the steps before the last of a reconcile.
unfoldable pub steps : Unit {0}
unfolding evaluator switching collect evaluate_and_switch apply_decision validate_policy
    first_bad_trigger first_bad_schedule detect_and_build first_found applied apply_all lookup
    has_admission_control has_triggers is_human_override_enabled effective_mesh_backend
steps = tt

accepting :
    (deletes : Bool) (rs : List (Resource ℤ)) (objects : Dict (Resource ℤ))
    → (apply_all (record { refuses = λ key. none; deletes = λ key. deletes }) rs objects).1 ≡ none
unfolding apply_all
accepting deletes [] objects = refl
accepting deletes (r ∷ rs) objects =
    accepting deletes rs (insert (r.kind <> "/" <> r.name) r objects)

healthy-Acts :
    (deletes : Bool)
    → Acts (env healthy true deletes) "production/payments" manager istio policy policy
unfolding steps
healthy-Acts deletes = record {
  fetched = refl;
  accepted = refl;
  backend = refl;
  again = refl;
  taken = accepting deletes (render_with {F = ℤ} istio policy).resources manager.objects;
}

healthy-stays :
    (deletes : Bool)
    → (switching (env healthy true deletes) "production/payments" policy manager).switched ≡ false
unfolding steps
healthy-stays deletes = refl

only_stale : Tracked manager.objects policy.status.managed_resources
unfolding lookup
only_stale key = ground arith

reconcile-Level_example :
    Level istio policy (reconcile (env healthy true true) "production/payments" manager)
reconcile-Level_example =
    reconcile-Level (env healthy true true) "production/payments" manager istio policy
      (healthy-Acts true) (healthy-stays true) (λ other. refl) only_stale

not_rendered :
    is_rendered "EnvoyFilter/stale" (render_with {F = ℤ} istio policy).managed_resource_refs ≡ false
unfolding render_with Istio.render Istio.admission Istio.concurrency Istio.stats_flush
    Istio.skip_paths Istio.streaming Istio.emit admission_control_name adaptive_concurrency_name
    stats_flush_name skip_paths_name streaming_protection_name has_streaming_protection
    has_admission_control has_adaptive_concurrency
not_rendered = refl

reconcile-forgets_example :
    (lookup "EnvoyFilter/stale"
        (reconcile (env healthy true false) "production/payments" manager).manager.objects
      ≡ lookup "EnvoyFilter/stale" manager.objects)
    × (is_rendered "EnvoyFilter/stale"
          (managed (reconcile (env healthy true false) "production/payments" manager).status)
        ≡ false)
reconcile-forgets_example =
    reconcile-forgets (env healthy true false) "production/payments" manager istio policy
      "EnvoyFilter/stale" (healthy-Acts false) (healthy-stays false) not_rendered refl

abbrev pub firing : Bool → Env ℤ
firing patched = env poor patched true

pub firing-Acts :
    Acts (firing true) "production/payments" manager istio policy (with_profile "degraded" policy)
unfolding steps
firing-Acts = record { fetched = refl; accepted = refl; backend = refl; again = refl; taken = refl }

pub firing-switches : (switching (firing true) "production/payments" policy manager).switched ≡ true
unfolding steps
firing-switches = refl

reconcile-Undelivered_example :
    ((reconcile (firing true) "production/payments" manager).manager.world ≡ at_start)
    × (lookup "EnvoyFilter/payments-admission-control"
          (reconcile (firing true) "production/payments" manager).manager.objects
        ≡ (if (not (
                  is_rendered "EnvoyFilter/payments-admission-control"
                    (render_with {F = ℤ} istio
                      (with_profile "degraded" policy)).managed_resource_refs)
                && is_rendered "EnvoyFilter/payments-admission-control"
                    policy.status.managed_resources)
              && true
            then none
            else lookup "EnvoyFilter/payments-admission-control" manager.objects))
reconcile-Undelivered_example =
    reconcile-Undelivered (firing true) "production/payments"
      "EnvoyFilter/payments-admission-control" manager istio policy (with_profile "degraded" policy)
      firing-Acts firing-switches refl

refused-Acts : Acts (firing false) "production/payments" manager istio policy policy
unfolding steps
refused-Acts = record {
  fetched = refl;
  accepted = refl;
  backend = refl;
  again = refl;
  taken = accepting true (render_with {F = ℤ} istio policy).resources manager.objects;
}

refused-wants :
    ((switching (firing false) "production/payments" policy manager).decision.should_switch ≡ true)
    × (((switching (firing false) "production/payments" policy manager).decision.reason == "")
        ≡ false)
unfolding steps ltgt
refused-wants = (refl, refl)

reconcile-Recorded_example :
    recorded (reconcile (firing false) "production/payments" manager).status ≡ (
      some (
          record_of 9 "normal" false false
            (switching (firing false) "production/payments" policy manager).decision),
      "normal",
    )
reconcile-Recorded_example =
    reconcile-Recorded (firing false) "production/payments" manager istio policy refused-Acts refl
      refused-wants.0 refused-wants.1

abbrev unmeshed : AdaptivePolicy
unmeshed = record complete { spec = record complete.spec { mesh_backend = "auto" } }

abbrev without_mesh : Env ℤ
without_mesh = record (firing true) { fetched = found unmeshed }

no_mesh : detect_and_build without_mesh.cluster unmeshed ≡ none
unfolding steps istio_detects cilium_detects
no_mesh = refl

reconcile-Halted_example : Halted manager (reconcile without_mesh "production/payments" manager)
reconcile-Halted_example =
    reconcile-Halted without_mesh "production/payments" unmeshed manager refl (λ v. no_mesh)

abbrev gone_later : List (Env ℤ × String)
gone_later =
    (record (firing true) { fetched = gone }, "production/payments")
    ∷ (env healthy true true, "production/payments")
    ∷ []

after_reconciles-OnePerKey_example :
    OnePerKey (after_reconciles (new_manager none at_start manager.objects) gone_later).pollers
after_reconciles-OnePerKey_example =
    after_reconciles-OnePerKey none at_start manager.objects gone_later

-- A policy without triggers, of whose requests a tenth succeed while the filter rejects none.
abbrev calm : AdaptivePolicy
calm = record policy { spec = record policy.spec { triggers = [] } }

abbrev idle_filter : Env ℤ
idle_filter = record (env poor true true) { fetched = found calm }

calm-Acts : (m : Manager ℤ) → Acts idle_filter "production/payments" m istio calm calm
unfolding steps
calm-Acts m = record {
  fetched = refl;
  accepted = refl;
  backend = refl;
  again = refl;
  taken = accepting true (render_with {F = ℤ} istio calm).resources m.objects;
}

abbrev seen_by : List (Env ℤ × String) → Observation ℤ
seen_by runs = observation idle_filter calm calm (after_reconciles manager runs)

abbrev first_run : List (Env ℤ × String)
first_run = (idle_filter, "production/payments") ∷ []

abbrev cut_off : Env ℤ
cut_off = record idle_filter { fetched = unreachable }

-- Another policy is reconciled in between, and a read of this one fails.
abbrev between : List (Env ℤ × String)
between = (cut_off, "production/payments") ∷ (firing true, "production/other") ∷ first_run

abbrev two_runs : List (Env ℤ × String)
two_runs = (idle_filter, "production/payments") ∷ between

first_seen : Observed "production/payments" manager first_run (seen_by [] ∷ [])
first_seen = observed [] [] idle_filter istio calm calm at_first (calm-Acts manager) refl

two_seen : Observed "production/payments" manager two_runs (seen_by between ∷ seen_by [] ∷ [])
unfolding watched inactive should_be_shedding filter_is_ejecting has_admission_control is_dry_run
    effective_success_rate_threshold active_profile_config must_parse_percent read parsed lookup
    collect
two_seen =
    let passed = passed_by first_run _ (firing true) "production/other" first_seen refl in
    let cut = cut_short _ _ cut_off passed (unread refl) in
    observed _ _ idle_filter istio calm calm cut (calm-Acts _)
      (sym (said-verdict "production/payments" manager refl _ _ cut (omega arith)))

said-verdict_example :
    said "production/payments" manager ((idle_filter, "production/payments") ∷ two_runs)
    ≡ some "False"
unfolding watched inactive should_be_shedding filter_is_ejecting has_admission_control is_dry_run
    effective_success_rate_threshold active_profile_config must_parse_percent read parsed lookup
    collect
said-verdict_example =
    said-verdict "production/payments" manager refl
      ((idle_filter, "production/payments") ∷ two_runs)
      (seen_by two_runs ∷ seen_by between ∷ seen_by [] ∷ [])
      (observed two_runs _ idle_filter istio calm calm two_seen (calm-Acts _)
        (sym (said-verdict "production/payments" manager refl two_runs _ two_seen (omega arith))))
      (omega arith)

health-reconcile_example :
    health (reconcile (env healthy true true) "production/payments" manager).status
    ≡ (some "True", none)
health-reconcile_example =
    health-reconcile (env healthy true true) "production/payments" manager istio policy policy
      (healthy-Acts true)
