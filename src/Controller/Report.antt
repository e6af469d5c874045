-- ===== src/Controller/Report.antt =====
-- internal/controller/adaptivepolicy_controller.go: the status that ends a reconcile, with the shed rate,
-- the record of a decision and the FilterEffective condition.
use shedpilot.Common.{
  String, Bool, true, false, not, some, ℕ, ◌+◌, ℤ, pos, pos_part, length, ◌==◌, ◌<>◌, ◌&&◌, ◌||◌,
  if◌then◌else◌,
}
use shedpilot.Common.Float.{Float}
use shedpilot.Api.{
  AdaptivePolicy, AdaptivePolicyStatus, Condition, DecisionRecord, has_admission_control,
  is_dry_run, condition_ready, condition_signal_collection_available,
}
use shedpilot.Controller.FilterEffective.{observe_filter}
use shedpilot.Trigger.Types.{Signals, Decision, State}
use shedpilot.Renderer.Result.{RenderResult}
use shedpilot.Controller.Conditions.{condition, set_condition, record_decision}
use shedpilot.Controller.Detection.{scrape_interval}

abbrev pub delivery_method_str : Bool → Bool → String
delivery_method_str rtds_connected switched =
    if switched && rtds_connected then "rtds (<200ms)" else "envoyfilter"

-- The record of a decision, made at `now` for a policy that was in the profile `before`.
abbrev pub record_of : ℕ → String → Bool → Bool → Decision → DecisionRecord
record_of now before rtds_connected switched d = record {
  timestamp = now;
  trigger_name = d.trigger_name;
  schedule_name = "";
  profile_before = before;
  profile_after = d.target_profile;
  signal_values = d.reason;
  delivery_method = if rtds_connected && switched then "rtds" else "envoyfilter";
  delivery_latency_ms = pos 0;
  outcome = "pending";
  outcome_detail = "";
}

unfoldable pub noted :
    ℕ → String → Bool → Bool → Decision → AdaptivePolicyStatus → AdaptivePolicyStatus
unfolding record_decision
noted now before rtds_connected switched d status =
    if not (d.reason == "") && d.should_switch
    then record_decision (record_of now before rtds_connected switched d) status
    else status

abbrev scraping_ok : ℤ → Condition
scraping_ok =
    condition condition_signal_collection_available "True" "ScrapingOK"
      "sidecar stats endpoints reachable on TCP 15090"

abbrev scraping_failed : ℤ → Condition
scraping_failed = condition condition_signal_collection_available "False" "ScrapingFailed" (
    "cannot reach pod sidecar stats endpoints on TCP 15090 — triggers will not fire. Ensure "
    <> "NetworkPolicy allows operator→pod:15090. Check logs for the specific error.")

abbrev pub collection : Bool → ℤ → Condition
collection true generation = scraping_ok generation
collection false generation = scraping_failed generation

module _ {F : Type 0} ⦃fl : Float F⦄ where
  abbrev zero_f : F
  zero_f = fl.of_int (pos 0)

  abbrev at_most_100 : F → F
  at_most_100 rate = if fl.lt (fl.of_int (pos 100)) rate then fl.of_int (pos 100) else rate

  pub actual_shed_rate : Signals F → AdaptivePolicy → String
  actual_shed_rate signals policy =
      if not (has_admission_control policy) || is_dry_run policy
      then "0%"
      else if fl.le signals.shed_rejected_rps zero_f || fl.le signals.rps zero_f
      then "0%"
      else "~"
        <> fl.fixed 0 (
            at_most_100
              (fl.mul (fl.div signals.shed_rejected_rps signals.rps) (fl.of_int (pos 100))))
        <> "%"

-- What a reconcile found out before its report.
pub record Findings (F : Type 0) : Type 0 where
  pub backend : String
  pub result : RenderResult F
  pub before : String
  pub decision : Decision
  pub switched : Bool
  pub signals : Signals F
  pub available : Bool
  pub rtds_connected : Bool

module _ {F : Type 0} ⦃fl : Float F⦄ where
  -- The fields that are set unconditionally.
  unfoldable pub refreshed : ℕ → AdaptivePolicy → Findings F → AdaptivePolicyStatus
  unfolding actual_shed_rate
  refreshed now policy f = record policy.status {
    observed_generation = policy.generation;
    detected_backend = f.backend;
    active_profile = policy.spec.active_profile;
    active_filters = f.result.active_filters;
    managed_resources = f.result.managed_resource_refs;
    last_reconcile_time = some now;
    next_trigger_evaluation = some (now + pos_part (scrape_interval policy));
    consecutive_bad_samples = f.decision.consecutive_bad_samples;
    rtds_connected = f.rtds_connected;
    shed_rate_now = actual_shed_rate f.signals policy;
  }

  unfoldable pub reconciled : AdaptivePolicy → Findings F → Condition
  reconciled policy f =
      condition condition_ready "True" "Reconciled"
        (fl.decimal (pos (length f.result.resources))
          <> " resources applied via "
          <> delivery_method_str f.rtds_connected f.switched
          <> ", backend: "
          <> f.backend)
        policy.generation

  -- Step 8, up to the patch of the status.
  unfoldable pub report : ℕ → AdaptivePolicy → Findings F → State → State × AdaptivePolicyStatus
  unfolding noted refreshed observe_filter reconciled
  report now policy f st =
      let status =
        noted now f.before f.rtds_connected f.switched f.decision (refreshed now policy f) in
      let collected =
        set_condition now (collection f.available policy.generation)
          (set_condition now (reconciled policy f) status.conditions) in
      let (st', conditions) = observe_filter now policy f.signals f.available st collected in
      (st', record status { conditions = conditions })
