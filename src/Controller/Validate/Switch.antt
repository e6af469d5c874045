-- ===== src/Controller/Validate/Switch.antt =====
-- A switch of the profile keeps a policy valid.
use shedpilot.Common.{
  String, ◌≡◌, ◌⊎◌, refl, Bool, true, false, Option, none, some, List, [], ◌∷◌, ℕ, Bool-cases, inl,
  inr, ◌&&◌, All, eq_ℤ, pos,
}
use shedpilot.Common.Float.{Float}
use shedpilot.Api.{
  AdaptivePolicy, TriggerConfig, has_admission_control, has_adaptive_concurrency,
  has_streaming_protection, has_triggers, is_human_override_enabled,
}
use shedpilot.Trigger.Types.{Signals, State, Decision}
use shedpilot.Trigger.Evaluate.{evaluate, loop, fired_decision, counted}
use shedpilot.Trigger.Evaluate.Ready.{ready, closest_of, passed}
use shedpilot.Trigger.Evaluate.Firing.{Quiet, Quiet-closest_of, loop-cons}
use shedpilot.Controller.Validate.{has_profile, with_profile, apply_decision, evaluate_and_switch}
use shedpilot.Controller.Validate.Sound.{Valid}

-- A decision that does not switch, or that switches to a profile of the policy.
abbrev Known : AdaptivePolicy → Decision → Type 0
Known policy d = (d.should_switch ≡ false) ⊎ (has_profile policy d.target_profile ≡ true)

with_profile-Valid :
    (policy : AdaptivePolicy) (target : String)
    → has_profile policy target ≡ true
    → Valid policy
    → Valid (with_profile target policy)
unfolding has_admission_control has_adaptive_concurrency has_streaming_protection
with_profile-Valid policy target known v = record {
  filter = v.filter;
  active = inr known;
  triggers = v.triggers;
  schedules = v.schedules;
}

apply_decision-Valid :
    (patched : Bool) (d : Decision) (policy : AdaptivePolicy) (state : State)
    → Known policy d
    → Valid policy
    → Valid (apply_decision patched d policy state).policy
unfolding apply_decision
apply_decision-Valid patched d policy state (inl stays) v = rw stays v
apply_decision-Valid patched d policy state (inr known) v =
    elim (Bool-cases (d.should_switch && patched)) [
      | inl e ↦ rw e (with_profile-Valid policy d.target_profile known v)
      | inr e ↦ rw e v
    ]

module _ {F : Type 0} ⦃fl : Float F⦄ (sig : Signals F) (current : String) (now : ℕ) where
  fired-Known :
      (t : TriggerConfig) (policy : AdaptivePolicy) (st : State)
      → has_profile policy t.switch_to ≡ true
      → Known policy (fired_decision sig t (counted sig t st))
  unfolding fired_decision
  fired-Known t policy st known = inr known

  loop-Known :
      (policy : AdaptivePolicy) (ts : List TriggerConfig) (c : Option Decision) (st : State)
      → All (λ (t : TriggerConfig). has_profile policy t.switch_to ≡ true) ts
      → Quiet sig current now c
      → Known policy (loop sig current now ts c st).0
  unfolding loop
  loop-Known policy [] none st known quiet = inl refl
  loop-Known policy [] (some d) st known quiet = inl quiet
  loop-Known policy (t ∷ ts) c st known quiet =
      let rest =
        loop-Known policy ts (closest_of sig current now t c st) (passed sig current now t st)
          known.1 (Quiet-closest_of sig current now t c st quiet) in
      elim (Bool-cases (ready sig current now t st)) [
        | inl r ↦ rw (loop-cons sig current now, r) (fired-Known t policy st known.0)
        | inr r ↦ rw (loop-cons sig current now, r) rest
      ]

module _ {F : Type 0} ⦃fl : Float F⦄ where
  evaluate-Known :
      (now : ℕ) (policy : AdaptivePolicy) (sig : Signals F) (st : State)
      → Valid policy
      → Known policy (evaluate now policy sig st).0
  unfolding evaluate
  evaluate-Known now policy sig st v = elim (Bool-cases (eq_ℤ sig.sample_count (pos 0))) [
    | inl e ↦ rw e (inl refl)
    | inr e ↦ elim (Bool-cases (has_triggers policy)) [
      | inl f ↦
          rw (e, f)
            (loop-Known sig policy.spec.active_profile now policy policy.spec.triggers none st
              v.triggers tt)
      | inr f ↦ rw (e, f) (inl refl)
    ]
  ]

  -- The reconciler keeps a valid policy valid, whatever the signals, the trigger state and the
  -- answer of the server are: it switches only to profiles that the policy has.
  pub evaluate_and_switch-Valid :
      (patched : Bool) (now : ℕ) (policy : AdaptivePolicy) (sig : Signals F) (st : State)
      → Valid policy
      → Valid (evaluate_and_switch patched now policy sig st).policy
  unfolding evaluate_and_switch
  evaluate_and_switch-Valid patched now policy sig st v =
      let moved =
        apply_decision-Valid patched (evaluate now policy sig st).0 policy
          (evaluate now policy sig st).1 (evaluate-Known now policy sig st v) v in
      elim (Bool-cases (is_human_override_enabled policy)) [
        | inl e ↦ rw e v
        | inr e ↦ elim (Bool-cases (has_triggers policy)) [
          | inl f ↦ rw (e, f) moved
          | inr f ↦ rw (e, f) v
        ]
      ]
