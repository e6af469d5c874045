-- ===== src/Controller/Messages.antt =====
-- internal/controller/adaptivepolicy_controller.go: what validatePolicy writes into the conditions of a
-- policy that it refuses.
use shedpilot.Common.{String, List, [], ◌∷◌, ◌==◌, ◌<>◌, if◌then◌else◌, is_nonempty}
use shedpilot.Common.Dict.{Dict}
use shedpilot.Api.{AdaptivePolicy, ProfileConfig}
use shedpilot.Controller.Validate.{
  Invalid, no_active_filters, invalid_active_profile, invalid_trigger, invalid_schedule,
}

-- What the messages take of Go's library: fmt's %q, and sort.Strings.
pub record Texts : Type 0 where
  pub quote : String → String
  pub sort_strings : List String → List String

abbrev names_of : Dict ProfileConfig → List String
names_of [] = []
names_of (entry ∷ profiles) = entry.0 ∷ names_of profiles

-- strings.Join(names, ", ")
join : List String → String
join [] = ""
join (name ∷ []) = name
join (name ∷ next ∷ names) = name <> ", " <> join (next ∷ names)

profile_names : Texts → Dict ProfileConfig → String
unfolding join
profile_names texts profiles =
    if is_nonempty profiles then join (texts.sort_strings (names_of profiles)) else ""

abbrev not_found : Texts → String → String → String → AdaptivePolicy → String
not_found texts kind name target policy =
    kind
    <> texts.quote name
    <> " switchTo "
    <> texts.quote target
    <> " not found in spec.profiles — define the profile or correct the name. Defined profiles: "
    <> profile_names texts policy.spec.profiles

pub reason_of : Invalid → String
reason_of no_active_filters = "NoActiveFilters"
reason_of invalid_active_profile = "InvalidActiveProfile"
reason_of (invalid_trigger t) = "InvalidTrigger"
reason_of (invalid_schedule s) = "InvalidSchedule"

pub message_of : Texts → AdaptivePolicy → Invalid → String
unfolding profile_names
message_of texts policy no_active_filters =
    "no filters are configured — this policy has no effect. Set admissionControl.enabled, "
    <> "adaptiveConcurrency.enabled, or streamingProtection.enabled to true."
message_of texts policy invalid_active_profile =
    let names = profile_names texts policy.spec.profiles in
    "activeProfile "
    <> texts.quote policy.spec.active_profile
    <> " not found in spec.profiles"
    <> (if names == "" then " — spec.profiles is empty" else " — defined profiles: " <> names)
message_of texts policy (invalid_trigger t) = not_found texts "trigger " t.name t.switch_to policy
message_of texts policy (invalid_schedule s) = not_found texts "schedule " s.name s.switch_to policy
