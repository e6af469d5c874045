-- ===== src/Trigger/Evaluate/Cooldown.antt =====
-- A trigger that fired rests until its cooldown has passed.
use shedpilot.Common.{
  eq_iff, ◌≢◌, subst, ◌≡◌, refl, ap, ◌∙◌, true, false, Option, none, some, List, [], ◌∷◌, ℕ, ltb_ℤ,
  sub_ℕ, arith, All,
}
use shedpilot.Common.Dict.{lookup}
use shedpilot.Common.Float.{Float}
use shedpilot.Api.{TriggerConfig}
use shedpilot.Trigger.Types.{Decision, State}
use shedpilot.Trigger.Evaluate.{seconds, skipped, evaluate}
use shedpilot.Trigger.Evaluate.Ready.{ready}
use shedpilot.Trigger.Evaluate.Firing.{UniqueNames, first_ready, Outcome}
use shedpilot.Trigger.Evaluate.Counters.{Elem}
use shedpilot.Trigger.Evaluate.Runs.{
  Input, Fires, Over, same_of_name, first_ready_facts, Over-Outcome, fired_first,
}

module _ {F : Type 0} ⦃fl : Float F⦄ where
  -- When a trigger fired, and what is left of its cooldown at a later time.
  abbrev Resting : TriggerConfig → ℕ → Input F → Type 0
  Resting t at i = ltb_ℤ (sub_ℕ i.at at) (seconds t.cooldown_seconds) ≡ true

  not_ready-Resting :
      (t : TriggerConfig) (at : ℕ) (i : Input F) (st : State)
      → Resting t at i
      → lookup t.name st.last_trigger_fire_time ≡ some at
      → ready i.signals i.policy.spec.active_profile i.at t st ≡ false
  unfolding ready skipped
  not_ready-Resting t at i st c l = ground arith

  time_kept :
      (t : TriggerConfig) (ts : List TriggerConfig) (i : Input F) (st : State)
      (c : Option TriggerConfig) (r : Decision × State)
      → UniqueNames ts
      → Elem t ts
      → ready i.signals i.policy.spec.active_profile i.at t st ≡ false
      → first_ready i.signals i.policy.spec.active_profile i.at ts st ≡ c
      → Outcome i.signals i.policy.spec.active_profile i.at st c r
      → lookup t.name r.1.last_trigger_fire_time ≡ lookup t.name st.last_trigger_fire_time
  time_kept t ts i st none r h m f e out = ap (lookup t.name) out.1
  time_kept t ts i st (some u) r h m f e out =
      let facts = first_ready_facts ts i.signals i.policy.spec.active_profile i.at st {u = u} e in
      let n : u.name ≢ t.name = λ n. let same = same_of_name t u ts h m facts.0 n in ground arith in
      ground (arith, out.5 t.name, eq_iff u.name t.name, n)

  -- An evaluation within the cooldown does not fire the trigger, and keeps its fire time.
  rest_one :
      (t : TriggerConfig) (ts : List TriggerConfig) (at : ℕ) (i : Input F) (st : State)
      → Over ts i
      → Elem t ts
      → Resting t at i
      → lookup t.name st.last_trigger_fire_time ≡ some at
      → (¬ Fires t (evaluate i.at i.policy i.signals st).0)
        × (lookup t.name (evaluate i.at i.policy i.signals st).1.last_trigger_fire_time ≡ some at)
  rest_one t ts at i st o m c l =
      let f = not_ready-Resting t at i st c l in
      let active = i.policy.spec.active_profile in
      (
        λ fires.
            let first = fired_first ts i st t o m fires in
            let facts = first_ready_facts ts i.signals active i.at st {u = t} first in
            ground (arith, facts.1),
        time_kept t ts i st _ (evaluate i.at i.policy i.signals st) o.2 m f refl
              (Over-Outcome ts i st o)
            ∙ l,
      )

  -- The state after more evaluations, the newest first.
  abbrev pub state_after : State → List (Input F) → State
  state_after st [] = st
  state_after st (i ∷ older) = (evaluate i.at i.policy i.signals (state_after st older)).1

  rest_every :
      (t : TriggerConfig) (ts : List TriggerConfig) (at : ℕ) (st : State) (h : List (Input F))
      → All (Over ts) h
      → All (Resting t at) h
      → Elem t ts
      → lookup t.name st.last_trigger_fire_time ≡ some at
      → lookup t.name (state_after st h).last_trigger_fire_time ≡ some at
  rest_every t ts at st [] o c m l = l
  rest_every t ts at st (i ∷ older) o c m l =
      (rest_one t ts at i (state_after st older) o.0 m c.0
        (rest_every t ts at st older o.1 c.1 m l)).1

  -- Once a trigger has fired, no evaluation fires it again while its cooldown has not passed, however
  -- many evaluations of the same list of triggers, with samples, lie between.
  pub cooldown_holds :
      (t : TriggerConfig) (ts : List TriggerConfig) (first : Input F) (st : State)
      (between : List (Input F)) (i : Input F)
      → Over ts first
      → Elem t ts
      → Fires t (evaluate first.at first.policy first.signals st).0
      → All (Over ts) (i ∷ between)
      → All (Resting t first.at) (i ∷ between)
      → ¬ Fires t
          (evaluate i.at i.policy i.signals
            (state_after (evaluate first.at first.policy first.signals st).1 between)).0
  cooldown_holds t ts first st between i o m f os cs =
      let out =
        subst
          (λ c.
            Outcome first.signals first.policy.spec.active_profile first.at st c
              (evaluate first.at first.policy first.signals st))
          (fired_first ts first st t o m f) (Over-Outcome ts first st o) in
      let st' = (evaluate first.at first.policy first.signals st).1 in
      let l =
        rest_every t ts first.at st' between os.1 cs.1 m
          (ground (arith, out.5 t.name, eq_iff t.name t.name)) in
      (rest_one t ts first.at i (state_after st' between) os.0 m cs.0 l).0
