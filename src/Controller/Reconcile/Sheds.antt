-- ===== src/Controller/Reconcile/Sheds.antt =====
-- Reconciles whose signals keep meeting a trigger lead to a switch.
use shedpilot.Common.{
  ap, subst, sym, ◌∙◌, ◌≡◌, refl, String, true, false, none, some, List, [], ◌∷◌, ◌⊎◌, ℕ, suc, ◌+◌,
  ◌<◌, ◌≤◌, ◌^◌, pos, pos_part, Bool-cases, inl, inr, eq_iff, arith, ◌==◌, if◌then◌else◌,
}
use shedpilot.Common.Dict.{lookup}
use shedpilot.Common.Float.{Float}
use shedpilot.Api.{AdaptivePolicy, TriggerConfig, has_triggers, is_human_override_enabled}
use shedpilot.Trigger.Types.{State}
use shedpilot.Trigger.Condition.{required_samples}
use shedpilot.Trigger.Evaluate.{or_zero, count, evaluate}
use shedpilot.Trigger.Evaluate.Counters.{Elem}
use shedpilot.Trigger.Evaluate.Runs.{Input, Over}
use shedpilot.Trigger.Evaluate.Presses.{
  Presses, Pressed, evaluate-Pressed, skipped-times, required_positive, below,
}
use shedpilot.Renderer.Detect.{Backend, detect_and_build}
use shedpilot.Controller.Validate.{validate_policy}
use shedpilot.Controller.Manager.{Manager, found, Env, state_of}
use shedpilot.Controller.Reconcile.{reconcile, switching, collect}
use shedpilot.Controller.Reconcile.Runs.{after_reconciles}
use shedpilot.Controller.Reconcile.Memory.{
  state_at, state-reconcile, state-other, switching-evaluate,
}

has_triggers_of :
    (policy : AdaptivePolicy) (t : TriggerConfig) (ts : List TriggerConfig)
    → policy.spec.triggers ≡ ts
    → Elem t ts
    → has_triggers policy ≡ true
unfolding has_triggers
has_triggers_of policy t [] e m = elim m [ ]
has_triggers_of policy t (u ∷ us) e m = rw e refl

module _ {F : Type 0} ⦃fl : Float F⦄ where
  -- What a reconcile evaluates.
  abbrev pub input_of : Env F → AdaptivePolicy → Manager F → Input F
  input_of env policy m = record {
    at = env.now;
    policy = policy;
    signals = (collect env policy m.snapshots).signals;
  }

  -- The reconcile evaluates the triggers of the policy.
  pub record Evaluates (env : Env F) (policy : AdaptivePolicy) : Type 0 where
    pub fetched : env.fetched ≡ found policy
    pub accepted : validate_policy policy ≡ none
    pub backend : Backend
    pub meshed : detect_and_build env.cluster policy ≡ some backend

  -- It does so without an override, the server takes its patch, and its signals meet the trigger, which
  -- neither rests nor is in its target profile.
  pub record Urges (t : TriggerConfig) (ts : List TriggerConfig) (st : State) (env : Env F)
      (m : Manager F) : Type 0 where
    pub policy : AdaptivePolicy
    pub evaluates : Evaluates env policy
    pub free : is_human_override_enabled policy ≡ false
    pub patched : env.patched ≡ true
    pub over : Over ts (input_of env policy m)
    pub presses : Presses t st (input_of env policy m)

  -- It switches the profile.
  pub record Switches (env : Env F) (key : String) (m : Manager F) : Type 0 where
    pub policy : AdaptivePolicy
    pub evaluates : Evaluates env policy
    pub switched : (switching env key policy m).switched ≡ true

  -- The reconciles of one policy among those that are made, the newest first.
  abbrev pub turns : String → List (Env F × String) → ℕ
  turns key [] = 0
  turns key (r ∷ older) = if r.1 == key then suc (turns key older) else turns key older

  module _ (key : String) (t : TriggerConfig) (ts : List TriggerConfig) (m : Manager F) where
    abbrev pub Urged : List (Env F × String) → Type 0
    Urged [] = Unit
    Urged (r ∷ older) =
        ((r.1 == key) ≡ true → Urges t ts (state_at key m) r.0 (after_reconciles m older))
        × Urged older

    abbrev pub Switched : List (Env F × String) → Type 0
    Switched [] = ⊥
    Switched (r ∷ older) =
        ((r.1 ≡ key) × Switches r.0 key (after_reconciles m older)) ⊎ Switched older

    -- What the reconciles leave as long as none of them switches.
    record Waiting (k : ℕ) (runs : List (Env F × String)) : Type 0 where
      counter : count (state_at key (after_reconciles m runs)) t.name ≡ pos (turns key runs + k)
      in_range : turns key runs + k + 1 < 2 ^ 31
      times :
          (state_at key (after_reconciles m runs)).last_trigger_fire_time
          ≡ (state_at key m).last_trigger_fire_time
      few : (turns key runs ≡ 0) ⊎ (turns key runs + k < pos_part (required_samples t.when))

    module _ (elem : Elem t ts) where
      urged :
          (env : Env F) (m' : Manager F) (n : ℕ)
          → Urges t ts (state_at key m) env m'
          → count (state_at key m') t.name ≡ pos n
          → n + 1 < 2 ^ 31
          → (state_at key m').last_trigger_fire_time ≡ (state_at key m).last_trigger_fire_time
          → Switches env key m'
            ⊎ Pressed t n (state_at key m') (state_at key (reconcile env key m').manager)
      urged env m' n u counter small times =
          let i = input_of env u.policy m' in
          let r = evaluate i.at i.policy i.signals (state_at key m') in
          let by =
            switching-evaluate env key m' u.policy u.free
              (has_triggers_of u.policy t ts u.over.1 elem) in
          let same =
            state-reconcile env key m' u.policy {b = u.evaluates.backend} u.evaluates.fetched
              u.evaluates.accepted u.evaluates.meshed in
          elim (Bool-cases r.0.should_switch) [
            | inl fires ↦ inl (record {
              policy = u.policy;
              evaluates = u.evaluates;
              switched = by.1 ∙ rw (fires, u.patched) refl;
            })
            | inr stays ↦
                let skip =
                  skipped-times i.policy.spec.active_profile i.at t (state_at key m')
                    (state_at key m) times in
                let p =
                  evaluate-Pressed t ts i (state_at key m') n u.over elem
                    (skip ∙ u.presses.0, u.presses.1) counter small stays in
                inr (record {
                  counter =
                      ap (λ d. or_zero (lookup t.name d)) same.counts
                      ∙ ap (λ (st : State). count st t.name) by.0
                      ∙ p.counter;
                  few = p.few;
                  times =
                      same.times ∙ ap (λ (st : State). st.last_trigger_fire_time) by.0 ∙ p.times;
                })
          ]

      own_turn :
          (k : ℕ) (r : Env F × String) (older : List (Env F × String))
          → pos_part (required_samples t.when) < 2 ^ 31
          → (r.1 == key) ≡ true
          → Urges t ts (state_at key m) r.0 (after_reconciles m older)
          → Waiting k older
          → Switched (r ∷ older) ⊎ Waiting k (r ∷ older)
      own_turn k r older fits mine u w =
          let same = (eq_iff r.1 key).0 mine in
          let m' = after_reconciles m older in
          elim (urged r.0 m' (turns key older + k) u w.counter w.in_range w.times) [
            | inl switched ↦ inl (inl (same, switched))
            | inr p ↦
                let next =
                  subst
                    (λ j.
                      Pressed t (turns key older + k) (state_at key m')
                        (state_at key (reconcile r.0 j m').manager))
                    (sym same) p in
                let room = below (required_samples t.when) (turns key older + k + 1) next.few in
                let up : turns key (r ∷ older) ≡ suc (turns key older) = rw mine refl in
                inr (record {
                  counter = next.counter ∙ ap pos (omega (arith, up));
                  in_range = omega (arith, up, room);
                  times = next.times ∙ w.times;
                  few = inr (omega (arith, up, room));
                })
          ]

      other_turn :
          (k : ℕ) (r : Env F × String) (older : List (Env F × String))
          → (r.1 == key) ≡ false
          → Waiting k older
          → Waiting k (r ∷ older)
      other_turn k r older away w =
          let kept = ap state_of (state-other r.0 key r.1 (after_reconciles m older) away) in
          let level : turns key (r ∷ older) ≡ turns key older = rw away refl in
          record {
            counter =
                ap (λ (st : State). count st t.name) kept
                ∙ w.counter
                ∙ ap pos (omega (arith, level));
            in_range = omega (arith, level, w.in_range);
            times = ap (λ (st : State). st.last_trigger_fire_time) kept ∙ w.times;
            few = rw level w.few;
          }

      turn :
          (k : ℕ) (r : Env F × String) (older : List (Env F × String))
          → pos_part (required_samples t.when) < 2 ^ 31
          → Urged (r ∷ older)
          → Switched older ⊎ Waiting k older
          → Switched (r ∷ older) ⊎ Waiting k (r ∷ older)
      turn k r older fits u (inl before) = inl (inr before)
      turn k r older fits u (inr w) = elim (Bool-cases (r.1 == key)) [
        | inl mine ↦ own_turn k r older fits mine (u.0 mine) w
        | inr away ↦ inr (other_turn k r older away w)
      ]

      waiting :
          (k : ℕ) (runs : List (Env F × String))
          → count (state_at key m) t.name ≡ pos k
          → k + 1 < 2 ^ 31
          → pos_part (required_samples t.when) < 2 ^ 31
          → Urged runs
          → Switched runs ⊎ Waiting k runs
      waiting k [] start small fits u = inr (record {
        counter = start ∙ ap pos (omega arith);
        in_range = omega arith;
        times = refl;
        few = inl refl;
      })
      waiting k (r ∷ older) start small fits u =
          turn k r older fits u (waiting k older start small fits u.1)

      -- Among reconciles of whatever policies, let those of one policy be at least as many
      -- as a trigger of it requires. Let each of them find the policy valid, in a mesh that
      -- is detected, with one list of triggers of different names and no override; collect
      -- samples, by which the trigger's condition is met; find the active profile to be none
      -- that the trigger's fromProfiles exclude and not its target, and the trigger not in
      -- the cooldown of a firing before them; and have its patch taken. Then one of them
      -- switches the profile. The trigger's count at the start is not negative, and the
      -- counts are below 2^31.
      pub reconciles-Switched :
          (k : ℕ) (runs : List (Env F × String))
          → count (state_at key m) t.name ≡ pos k
          → k + 1 < 2 ^ 31
          → pos_part (required_samples t.when) < 2 ^ 31
          → Urged runs
          → pos_part (required_samples t.when) ≤ turns key runs
          → Switched runs
      reconciles-Switched k runs start small fits u long =
          elim (waiting k runs start small fits u) [
            | inl switched ↦ switched
            | inr w ↦ absurd (omega (arith, w.few, required_positive t.when))
          ]
