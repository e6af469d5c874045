-- ===== src/Trigger/Evaluate/Firing.antt =====
-- Which trigger an evaluation fires, and what it does to the counters.
use text.Mathlib.TextPositions.{eq_refl}
use shedpilot.Common.{
  ◌==◌, ap, is_nonempty, ltb_ℤ, inc, String, ◌≡◌, ◌≢◌, refl, true, false, not, Option, none, some,
  List, [], ◌∷◌, ℕ, ℤ, pos, eq_ℤ, arith, eq_iff, Bool-cases, inl, inr, All, if◌then◌else◌,
}
use shedpilot.Common.Dict.{lookup, lookup-insert}
use shedpilot.Common.Float.{Float}
use shedpilot.Api.{TriggerConfig, AdaptivePolicy}
use shedpilot.Trigger.Types.{Signals, Decision, State}
use shedpilot.Trigger.Evaluate.{
  count, skipped, counted, fires, fired_decision, closest_after, loop, evaluate,
}
use shedpilot.Trigger.Evaluate.Ready.{count-set_count, ready, passed, fired, closest_of, step_lem}

-- No two triggers have one name.
abbrev pub UniqueNames : List TriggerConfig → Type 0
UniqueNames [] = Unit
UniqueNames (t ∷ ts) = All (λ u. t.name ≢ u.name) ts × UniqueNames ts

-- Two states agree on what a trigger reads.
abbrev pub SameFor : String → State → State → Type 0
SameFor k a b =
    (lookup k a.consecutive_bad_samples ≡ lookup k b.consecutive_bad_samples)
    × (lookup k a.last_trigger_fire_time ≡ lookup k b.last_trigger_fire_time)

module _ {F : Type 0} ⦃fl : Float F⦄ (sig : Signals F) (current : String) (now : ℕ) where
  -- The first trigger that is ready in a state.
  abbrev pub first_ready : List TriggerConfig → State → Option TriggerConfig
  first_ready [] st = none
  first_ready (t ∷ ts) st = if ready sig current now t st then some t else first_ready ts st

  pub ready-SameFor :
      (t : TriggerConfig) (a b : State)
      → SameFor t.name a b
      → ready sig current now t a ≡ ready sig current now t b
  unfolding ready skipped counted fires
  ready-SameFor t a b h = ground arith

  pub SameFor-passed :
      (t : TriggerConfig) (k : String) (st : State)
      → t.name ≢ k
      → SameFor k (passed sig current now t st) st
  unfolding passed
  SameFor-passed t k st h =
      ground (
        arith,
        eq_iff t.name k,
        lookup-insert t.name k (counted sig t st) st.consecutive_bad_samples,
      )

  pub first_ready-passed :
      (t : TriggerConfig) (ts : List TriggerConfig) (st : State)
      → All (λ u. t.name ≢ u.name) ts
      → first_ready ts (passed sig current now t st) ≡ first_ready ts st
  first_ready-passed t [] st h = refl
  first_ready-passed t (u ∷ us) st h =
      let same =
        ready-SameFor u (passed sig current now t st) st (SameFor-passed t u.name st h.0) in
      rw (same, first_ready-passed t us st h.1)

  pub first_ready_name :
      (t : TriggerConfig) (ts : List TriggerConfig) (st : State) {u : TriggerConfig}
      → All (λ v. t.name ≢ v.name) ts
      → first_ready ts st ≡ some u
      → t.name ≢ u.name
  first_ready_name t [] st h e = cc
  first_ready_name t (v ∷ vs) st {u} h e = elim (Bool-cases (ready sig current now v st)) [
    | inl r ↦ ground (arith, h.0)
    | inr r ↦ first_ready_name t vs st {u = u} h.1 (ground arith)
  ]

  pub loop-cons :
      (t : TriggerConfig) (ts : List TriggerConfig) (c : Option Decision) (st : State)
      → loop sig current now (t ∷ ts) c st ≡ (
          if ready sig current now t st
          then (fired_decision sig t (counted sig t st), fired sig current now t st)
          else loop sig current now ts
              (closest_of sig current now t c st)
              (passed sig current now t st))
  unfolding loop
  loop-cons t ts c st = elim (Bool-cases (ready sig current now t st)) [
    | inl r ↦ rw (step_lem sig current now t c st, loop) (rw r)
    | inr r ↦ rw (step_lem sig current now t c st, loop) (rw r)
  ]

  -- What an evaluation does, told by the first trigger that is ready.
  abbrev pub Outcome : State → Option TriggerConfig → Decision × State → Type 0
  Outcome st none r =
      (r.0.should_switch ≡ false) × (r.1.last_trigger_fire_time ≡ st.last_trigger_fire_time)
  Outcome st (some t) r =
      (r.0.should_switch ≡ true)
      × (r.0.target_profile ≡ t.switch_to)
      × (r.0.trigger_name ≡ t.name)
      × (r.0.consecutive_bad_samples ≡ inc 31 (count st t.name))
      × (count r.1 t.name ≡ pos 0)
      × ((k : String)
          → lookup k r.1.last_trigger_fire_time
            ≡ (if t.name == k then some now else lookup k st.last_trigger_fire_time))

  -- No decision that the loop carries along switches.
  abbrev pub Quiet : Option Decision → Type 0
  Quiet none = Unit
  Quiet (some d) = d.should_switch ≡ false

  Quiet-closest_after :
      (c : Option Decision) (t : TriggerConfig) (n : ℤ) → Quiet c → Quiet (closest_after sig c t n)
  unfolding closest_after
  Quiet-closest_after (some d) t n h = h
  Quiet-closest_after none t n h = elim (Bool-cases (ltb_ℤ (pos 0) n)) [
    | inl e ↦ rw e refl
    | inr e ↦ rw e tt
  ]

  pub Quiet-closest_of :
      (t : TriggerConfig) (c : Option Decision) (st : State)
      → Quiet c
      → Quiet (closest_of sig current now t c st)
  unfolding closest_of
  Quiet-closest_of t c st h = elim (Bool-cases (skipped current now t st)) [
    | inl s ↦ rw s h
    | inr s ↦ rw s (Quiet-closest_after c t _ h)
  ]

  Outcome-fired :
      (t : TriggerConfig) (st : State)
      → ready sig current now t st ≡ true
      → Outcome st (some t) (fired_decision sig t (counted sig t st), fired sig current now t st)
  unfolding fired fired_decision
  Outcome-fired t st r = (
    refl,
    refl,
    refl,
    unfold ready fires counted in ground arith,
    simp (count-set_count, eq_refl),
    λ k. lookup-insert t.name k now st.last_trigger_fire_time,
  )

  last-passed :
      (t : TriggerConfig) (st : State)
      → (passed sig current now t st).last_trigger_fire_time ≡ st.last_trigger_fire_time
  unfolding passed
  last-passed t st = ground arith

  Outcome-passed :
      (t : TriggerConfig) (ts : List TriggerConfig) (st : State) (r : Decision × State)
      (o : Option TriggerConfig)
      → All (λ v. t.name ≢ v.name) ts
      → first_ready ts st ≡ o
      → Outcome (passed sig current now t st) o r
      → Outcome st o r
  Outcome-passed t ts st r none h e out = unfold passed in ground arith
  Outcome-passed t ts st r (some u) h e out =
      let same = SameFor-passed t u.name st (first_ready_name t ts st h e) in
      let times = last-passed t st in
      (
        ground (arith, out.0),
        ground (arith, out.1),
        ground (arith, out.2),
        ground (arith, out.3, same.0),
        ground (arith, out.4),
        λ k. ground (arith, out.5 k, ap (lookup k) times),
      )

  loop-Outcome :
      (ts : List TriggerConfig) (c : Option Decision) (st : State)
      → UniqueNames ts
      → Quiet c
      → Outcome st (first_ready ts st) (loop sig current now ts c st)
  loop-Outcome [] none st u q = unfold loop in (refl, refl)
  loop-Outcome [] (some d) st u q = unfold loop in (q, refl)
  loop-Outcome (t ∷ ts) c st u q =
      let rest =
        loop-Outcome ts (closest_of sig current now t c st) (passed sig current now t st) u.1
          (Quiet-closest_of t c st q) in
      elim (Bool-cases (ready sig current now t st)) [
        | inl r ↦ rw (loop-cons, r) (Outcome-fired t st r)
        | inr r ↦
            rw (loop-cons, r)
              (Outcome-passed t ts st _ (first_ready ts st) u.0 refl
                (rw (first_ready-passed t ts st u.0) at rest))
      ]

  guarded-Outcome :
      (ts : List TriggerConfig) (d : Decision) (st : State)
      → d.should_switch ≡ false
      → UniqueNames ts
      → Outcome st
          (first_ready ts st)
          (if not (is_nonempty ts) then (d, st) else loop sig current now ts none st)
  guarded-Outcome [] d st q u = (q, refl)
  guarded-Outcome (t ∷ ts) d st q u = loop-Outcome (t ∷ ts) none st u tt

module _ {F : Type 0} ⦃fl : Float F⦄ where
  -- An evaluation with samples, over triggers of different names: if no trigger is ready, nothing
  -- switches and no fire time changes. Otherwise the first trigger that is ready in the state before
  -- the evaluation decides: the decision names it, its target and its count with this sample, its
  -- fire time becomes `now`, its counter is cleared, and no other fire time changes.
  pub evaluate-Outcome :
      (now : ℕ) (policy : AdaptivePolicy) (sig : Signals F) (st : State)
      → eq_ℤ sig.sample_count (pos 0) ≡ false
      → UniqueNames policy.spec.triggers
      → Outcome sig policy.spec.active_profile now st
          (first_ready sig policy.spec.active_profile now policy.spec.triggers st)
          (evaluate now policy sig st)
  unfolding evaluate
  evaluate-Outcome now policy sig st sampled unique =
      rw sampled
        (guarded-Outcome sig policy.spec.active_profile now policy.spec.triggers _ st refl unique)
