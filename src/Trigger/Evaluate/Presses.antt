-- ===== src/Trigger/Evaluate/Presses.antt =====
-- A condition that stays met leads to a switch.
use shedpilot.Common.{
  eq_iff, subst, ◌≡◌, refl, ◌∙◌, String, true, false, not, Option, none, some, List, [], ◌∷◌, ℕ,
  ◌+◌, ◌<◌, ◌≤◌, ◌^◌, ℤ, pos, pos_part, leb_ℤ, inc-pos, arith, Bool-cases, inl, inr,
}
use shedpilot.Common.Float.{Float}
use shedpilot.Api.{TriggerConfig, TriggerCondition}
use shedpilot.Trigger.Types.{Signals, Decision, State}
use shedpilot.Trigger.Condition.{condition_met, required_samples}
use shedpilot.Trigger.Evaluate.{count, skipped, counted, fires, cooling, evaluate}
use shedpilot.Trigger.Evaluate.Ready.{ready}
use shedpilot.Trigger.Evaluate.Firing.{UniqueNames, first_ready, Outcome}
use shedpilot.Trigger.Evaluate.Counters.{Elem, Elem-name, visits}
use shedpilot.Trigger.Evaluate.Runs.{Input, Over, Over-Outcome, count-Over}

-- What an evaluation that does not switch does to the counter of such a trigger.
pub record Pressed (t : TriggerConfig) (k : ℕ) (before after : State) : Type 0 where
  pub counter : count after t.name ≡ pos (k + 1)
  pub few : leb_ℤ (required_samples t.when) (pos (k + 1)) ≡ false
  pub times : after.last_trigger_fire_time ≡ before.last_trigger_fire_time

module _ {F : Type 0} ⦃fl : Float F⦄ (sig : Signals F) (current : String) (now : ℕ) where
  none_ready :
      (c : Option TriggerConfig) (st : State) (r : Decision × State)
      → Outcome sig current now st c r
      → r.0.should_switch ≡ false
      → c ≡ none
  none_ready none st r out stays = refl
  none_ready (some u) st r out stays = ground arith

  not_ready_of :
      (t : TriggerConfig) (ts : List TriggerConfig) (st : State)
      → first_ready sig current now ts st ≡ none
      → Elem t ts
      → ready sig current now t st ≡ false
  not_ready_of t [] st e m = elim m [ ]
  not_ready_of t (v ∷ vs) st e m = elim (Bool-cases (ready sig current now v st)) [
    | inl r ↦ ground arith
    | inr r ↦ elim m [
      | inl same ↦ rw (← same) r
      | inr deeper ↦ not_ready_of t vs st (ground arith) deeper
    ]
  ]

  -- Where no trigger is ready, the loop reaches every trigger.
  visits_of :
      (t : TriggerConfig) (ts : List TriggerConfig) (st : State)
      → UniqueNames ts
      → first_ready sig current now ts st ≡ none
      → Elem t ts
      → visits sig current now t ts st ≡ not (skipped current now t st)
  visits_of t [] st u e m = elim m [ ]
  visits_of t (v ∷ vs) st u e (inl same) = rw (← same) (ground (arith, eq_iff v.name v.name))
  visits_of t (v ∷ vs) st u e (inr m) = elim (Bool-cases (ready sig current now v st)) [
    | inl r ↦ ground arith
    | inr r ↦
        let n = Elem-name v t vs u.0 m in
        ground (arith, eq_iff v.name t.name, n, visits_of t vs st u.1 (ground arith) m)
  ]

  too_few :
      (t : TriggerConfig) (st : State) (k : ℕ)
      → ready sig current now t st ≡ false
      → skipped current now t st ≡ false
      → (condition_met t.when sig).0 ≡ true
      → counted sig t st ≡ pos k
      → leb_ℤ (required_samples t.when) (pos k) ≡ false
  unfolding ready fires
  too_few t st k r s met c = ground arith

pub skipped-times :
    (current : String) (now : ℕ) (t : TriggerConfig) (a b : State)
    → a.last_trigger_fire_time ≡ b.last_trigger_fire_time
    → skipped current now t a ≡ skipped current now t b
unfolding skipped cooling
skipped-times current now t a b h = rw h refl

-- A condition requires at least one sample.
pub required_positive : (cond : TriggerCondition) → 1 ≤ pos_part (required_samples cond)
unfolding required_samples
required_positive cond = ground arith

pub below : (required : ℤ) (k : ℕ) → leb_ℤ required (pos k) ≡ false → k < pos_part required
below required k h = ground arith

module _ {F : Type 0} ⦃fl : Float F⦄ where
  -- The evaluation reaches the trigger, unless another is ready, and meets its condition.
  abbrev pub Presses : TriggerConfig → State → Input F → Type 0
  Presses t st i =
      (skipped i.policy.spec.active_profile i.at t st ≡ false)
      × ((condition_met t.when i.signals).0 ≡ true)

  pub evaluate-Pressed :
      (t : TriggerConfig) (ts : List TriggerConfig) (i : Input F) (st : State) (k : ℕ)
      → Over ts i
      → Elem t ts
      → Presses t st i
      → count st t.name ≡ pos k
      → k + 1 < 2 ^ 31
      → (evaluate i.at i.policy i.signals st).0.should_switch ≡ false
      → Pressed t k st (evaluate i.at i.policy i.signals st).1
  unfolding counted
  evaluate-Pressed t ts i st k o m p c small stays =
      let active = i.policy.spec.active_profile in
      let r = evaluate i.at i.policy i.signals st in
      let out = Over-Outcome ts i st o in
      let quiet =
        none_ready i.signals active i.at (first_ready i.signals active i.at ts st) st r out stays in
      let idle = not_ready_of i.signals active i.at t ts st quiet m in
      let up : counted i.signals t st ≡ pos (k + 1) = rw (p.1, c) (inc-pos 31 k small) in
      record {
        counter =
            count-Over ts i st t o m
            ∙ rw (visits_of i.signals active i.at t ts st o.2 quiet m, p.0, idle) up;
        few = too_few i.signals active i.at t st (k + 1) idle p.0 p.1 up;
        times = (subst (λ found. Outcome i.signals active i.at st found r) quiet out).1;
      }
