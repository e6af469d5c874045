-- ===== src/Trigger/Evaluate/Ready.antt =====
-- One iteration of Evaluate's loop: when it fires, and what it writes.
use text.Mathlib.TextPositions.{eq_refl}
use shedpilot.Common.{
  none, ◌⊎◌, String, ◌≡◌, ◌≢◌, ◌↔◌, Bool, true, false, not, ◌&&◌, Option, some, [], ℕ, ℤ, pos,
  leb_ℤ, sub_ℕ, inc, arith, eq_iff, Bool-cases, Option-cases, inl, inr, ◌==◌, if◌then◌else◌,
}
use shedpilot.Common.Dict.{lookup, insert, lookup-insert}
use shedpilot.Common.Float.{Float}
use shedpilot.Api.{TriggerConfig}
use shedpilot.Trigger.Types.{Signals, Decision, State}
use shedpilot.Trigger.Condition.{condition_met, required_samples}
use shedpilot.Trigger.Evaluate.{
  contains, count, set_count, seconds, cooling, skipped, next, fire, counted, fires, fired_decision,
  closest_after, step,
}

-- Reading the counter that was written.
pub count-set_count :
    (name k : String) (n : ℤ) (st : State)
    → count (set_count name n st) k ≡ (if name == k then n else count st k)
count-set_count name k n st = ground (arith, lookup-insert name k n st.consecutive_bad_samples)

pub count-set_count_self :
    (name : String) (n : ℤ) (st : State) → count (set_count name n st) name ≡ n
count-set_count_self name n st = simp (count-set_count, eq_refl)

module _ {F : Type 0} ⦃fl : Float F⦄ (sig : Signals F) (current : String) (now : ℕ) where
  -- The time since the last firing, if there was one, is at least the cooldown.
  abbrev Rested : TriggerConfig → Option ℕ → Type 0
  Rested t none = Unit
  Rested t (some last) = leb_ℤ (seconds t.cooldown_seconds) (sub_ℕ now last) ≡ true

  -- The trigger may fire now: its profile, cooldown, condition and sample count all allow it.
  pub record Ready (t : TriggerConfig) (st : State) : Type 0 where
    pub from_allowed : (t.from_profiles ≡ []) ⊎ (contains t.from_profiles current ≡ true)
    pub elsewhere : current ≢ t.switch_to
    pub rested : Rested t (lookup t.name st.last_trigger_fire_time)
    pub met : (condition_met t.when sig).0 ≡ true
    pub enough : leb_ℤ (required_samples t.when) (inc 31 (count st t.name)) ≡ true

  unfoldable pub ready : TriggerConfig → State → Bool
  ready t st = not (skipped current now t st) && fires sig t (counted sig t st)

  cooling-Rested :
      (t : TriggerConfig) (st : State)
      → cooling now t st ≡ false
      → Rested t (lookup t.name st.last_trigger_fire_time)
  unfolding cooling
  cooling-Rested t st h = elim (Option-cases (lookup t.name st.last_trigger_fire_time)) [
    | inl never ↦ rw never tt
    | inr (last, e) ↦ rw e (ground arith)
  ]

  ready_sound : (t : TriggerConfig) (st : State) → ready t st ≡ true → Ready t st
  unfolding ready skipped fires counted
  ready_sound t st h = record {
    from_allowed = ground arith;
    elsewhere = ground (arith, eq_iff current t.switch_to);
    rested = cooling-Rested t st (ground arith);
    met = ground arith;
    enough = ground arith;
  }

  not_cooling : (t : TriggerConfig) (st : State) → Ready t st → cooling now t st ≡ false
  unfolding cooling
  not_cooling t st r = elim (Option-cases (lookup t.name st.last_trigger_fire_time)) [
    | inl never ↦ ground arith
    | inr (last, e) ↦ let rested = rw e at r.rested in ground (arith, rested)
  ]

  ready_complete : (t : TriggerConfig) (st : State) → Ready t st → ready t st ≡ true
  unfolding ready skipped fires counted
  ready_complete t st r =
      let c = not_cooling t st r in
      ground (arith, eq_iff current t.switch_to, r.met, r.enough, r.from_allowed)

  -- The Boolean test decides the declarative one.
  pub ready_iff : (t : TriggerConfig) (st : State) → (ready t st ≡ true) ↔ Ready t st
  ready_iff t st = (ready_sound t st, ready_complete t st)

  -- The state after an iteration that does not fire.
  unfoldable pub passed : TriggerConfig → State → State
  passed t st = if skipped current now t st then st else set_count t.name (counted sig t st) st

  -- The state after an iteration that fires.
  unfoldable pub fired : TriggerConfig → State → State
  fired t st = set_count t.name (pos 0) (record (set_count t.name (counted sig t st) st) {
    last_trigger_fire_time = insert t.name now st.last_trigger_fire_time;
  })

  unfoldable pub closest_of : TriggerConfig → Option Decision → State → Option Decision
  closest_of t closest st =
      if skipped current now t st then closest else closest_after sig closest t (counted sig t st)

  pub step_lem :
      (t : TriggerConfig) (closest : Option Decision) (st : State)
      → step sig current now t closest st ≡ (
          if ready t st
          then fire (fired_decision sig t (counted sig t st)) (fired t st)
          else next (closest_of t closest st) (passed t st))
  unfolding step ready passed fired closest_of
  step_lem t closest st = elim (Bool-cases (skipped current now t st)) [
    | inl s ↦ rw s
    | inr g ↦ rw g (rw count-set_count_self)
  ]
