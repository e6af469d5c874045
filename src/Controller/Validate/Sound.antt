-- ===== src/Controller/Validate/Sound.antt =====
-- What validatePolicy accepts, and that a switch keeps it.
use mathlib.Core.Bool.{false≢true}
use shedpilot.Common.{
  sym, ◌∙◌, ◌≡◌, ◌≢◌, ◌⊎◌, ◌↔◌, refl, true, false, Option, none, some, List, [], ◌∷◌, arith, eq_iff,
  Bool-cases, inl, inr, ◌==◌, All,
}
use shedpilot.Api.{AdaptivePolicy, TriggerConfig, ScheduleConfig}
use shedpilot.Controller.Validate.{
  Invalid, has_profile, first_bad_trigger, first_bad_schedule, no_filters, first_of,
  validate_policy,
}

-- Some filter is enabled, and every profile that the policy names is one of its profiles.
pub record Valid (policy : AdaptivePolicy) : Type 0 where
  pub filter : no_filters policy ≡ false
  pub active :
      (policy.spec.active_profile ≡ "") ⊎ (has_profile policy policy.spec.active_profile ≡ true)
  pub triggers :
      All (λ (t : TriggerConfig). has_profile policy t.switch_to ≡ true) policy.spec.triggers
  pub schedules :
      All (λ (s : ScheduleConfig). has_profile policy s.switch_to ≡ true) policy.spec.schedules

some-none : (i : Invalid) → some i ≢ none
some-none i = ground arith

triggers_iff :
    (policy : AdaptivePolicy) (ts : List TriggerConfig)
    → (first_bad_trigger policy ts ≡ none)
      ↔ All (λ (t : TriggerConfig). has_profile policy t.switch_to ≡ true) ts
unfolding first_bad_trigger
triggers_iff policy [] = ((λ h. tt), (λ h. refl))
triggers_iff policy (t ∷ ts) =
    let rec = triggers_iff policy ts in
    elim (Bool-cases (has_profile policy t.switch_to)) [
      | inl e ↦ rw e ((λ h. (refl, rec.0 h)), (λ h. rec.1 h.1))
      | inr e ↦ rw e ((λ h. absurd (some-none _ h)), (λ h. absurd (false≢true h.0)))
    ]

schedules_iff :
    (policy : AdaptivePolicy) (ts : List ScheduleConfig)
    → (first_bad_schedule policy ts ≡ none)
      ↔ All (λ (t : ScheduleConfig). has_profile policy t.switch_to ≡ true) ts
unfolding first_bad_schedule
schedules_iff policy [] = ((λ h. tt), (λ h. refl))
schedules_iff policy (t ∷ ts) =
    let rec = schedules_iff policy ts in
    elim (Bool-cases (has_profile policy t.switch_to)) [
      | inl e ↦ rw e ((λ h. (refl, rec.0 h)), (λ h. rec.1 h.1))
      | inr e ↦ rw e ((λ h. absurd (some-none _ h)), (λ h. absurd (false≢true h.0)))
    ]

first_of_iff : (a b : Option Invalid) → (first_of a b ≡ none) ↔ ((a ≡ none) × (b ≡ none))
first_of_iff none b = ((λ h. (refl, h)), (λ h. h.1))
first_of_iff (some i) b = ((λ h. absurd (some-none i h)), (λ h. absurd (some-none i h.0)))

abbrev ActiveProfile : AdaptivePolicy → Type 0
ActiveProfile policy =
    (policy.spec.active_profile ≡ "") ⊎ (has_profile policy policy.spec.active_profile ≡ true)

accepted_iff :
    (policy : AdaptivePolicy)
    → no_filters policy ≡ false
    → ActiveProfile policy
    → (first_of
          (first_bad_trigger policy policy.spec.triggers)
          (first_bad_schedule policy policy.spec.schedules)
        ≡ none)
      ↔ Valid policy
accepted_iff policy filtered active =
    let both =
      first_of_iff (first_bad_trigger policy policy.spec.triggers)
        (first_bad_schedule policy policy.spec.schedules) in
    let ts = triggers_iff policy policy.spec.triggers in
    let ss = schedules_iff policy policy.spec.schedules in
    (
      (λ h.
          let (no_trigger, no_schedule) = both.0 h in
          record {
            filter = filtered;
            active = active;
            triggers = ts.0 no_trigger;
            schedules = ss.0 no_schedule;
          }),
      (λ v. both.1 (ts.1 v.triggers, ss.1 v.schedules)),
    )

unnamed :
    (policy : AdaptivePolicy)
    → policy.spec.active_profile ≢ ""
    → has_profile policy policy.spec.active_profile ≡ false
    → ¬ ActiveProfile policy
unnamed policy named missing (inl e) = named e
unnamed policy named missing (inr e) = false≢true (sym missing ∙ e)

-- A policy is accepted exactly when some filter is enabled and every profile that it names, as the
-- active one or as the target of a trigger or a schedule, is one of its profiles.
pub validate_policy_iff : (policy : AdaptivePolicy) → (validate_policy policy ≡ none) ↔ Valid policy
unfolding validate_policy
validate_policy_iff policy =
    let name = policy.spec.active_profile in
    let empty = eq_iff name "" in
    let rest = accepted_iff policy in
    elim (Bool-cases (no_filters policy)) [
      | inl e ↦ rw e ((λ h. absurd (some-none _ h)), (λ v. absurd (false≢true (sym v.filter ∙ e))))
      | inr e ↦ elim (Bool-cases (name == "")) [
        | inl f ↦ rw (e, f) (rest e (inl (empty.0 f)))
        | inr f ↦ elim (Bool-cases (has_profile policy name)) [
          | inl g ↦ rw (e, f, g) (rest e (inr g))
          | inr g ↦
              rw (e, f, g)
                (
                  (λ h. absurd (some-none _ h)),
                  (λ v. absurd (unnamed policy (λ q. false≢true (sym f ∙ empty.1 q)) g v.active)),
                )
        ]
      ]
    ]
