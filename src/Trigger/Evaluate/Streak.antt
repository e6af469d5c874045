-- ===== src/Trigger/Evaluate/Streak.antt =====
-- A trigger fires only after its condition was met at enough visits in a row.
use shedpilot.Common.{List, [], ◌∷◌, ℕ, suc, ◌≤◌, ℤ, pos_part, inc, arith, All, if◌then◌else◌}
use shedpilot.Common.Dict.{lookup}
use shedpilot.Common.Float.{Float}
use shedpilot.Api.{TriggerConfig}
use shedpilot.Trigger.Types.{State, new_state}
use shedpilot.Trigger.Condition.{condition_met, required_samples}
use shedpilot.Trigger.Evaluate.{count, counted, evaluate}
use shedpilot.Trigger.Evaluate.Ready.{ready_iff}
use shedpilot.Trigger.Evaluate.Counters.{Elem, visits}
use shedpilot.Trigger.Evaluate.Runs.{
  Input, Fires, Over, first_ready_facts, visits-first_ready, fired_first, count-Over,
}

inc_bound : (w : ℕ) (z : ℤ) → pos_part (inc w z) ≤ suc (pos_part z)
inc_bound w z = ground arith

module _ {F : Type 0} ⦃fl : Float F⦄ where
  -- The state after some evaluations of a fresh evaluator, the newest input first.
  abbrev pub state_of : List (Input F) → State
  state_of [] = new_state
  state_of (i ∷ older) = (evaluate i.at i.policy i.signals (state_of older)).1

  -- How many of the newest evaluations that visited the trigger met its condition, without a gap.
  abbrev pub streak : TriggerConfig → List TriggerConfig → List (Input F) → ℕ
  streak t ts [] = 0
  streak t ts (i ∷ older) =
      if visits i.signals i.policy.spec.active_profile i.at t ts (state_of older)
      then (if (condition_met t.when i.signals).0 then suc (streak t ts older) else 0)
      else streak t ts older

  count-le-streak :
      (t : TriggerConfig) (ts : List TriggerConfig) (h : List (Input F))
      → All (Over ts) h
      → Elem t ts
      → pos_part (count (state_of h) t.name) ≤ streak t ts h
  unfolding counted lookup
  count-le-streak t ts [] o m = omega arith
  count-le-streak t ts (i ∷ older) o m =
      let rest = count-le-streak t ts older o.1 m in
      rw (count-Over ts i (state_of older) t o.0 m)
        (ground (arith, rest, inc_bound 31 (count (state_of older) t.name)))

  -- Over evaluations with samples of one list of triggers of different names, from a fresh state: a
  -- trigger that an evaluation fires has had its condition met at as many visits in a row as it
  -- requires, this evaluation included.
  pub fired-streak :
      (t : TriggerConfig) (ts : List TriggerConfig) (i : Input F) (older : List (Input F))
      → All (Over ts) (i ∷ older)
      → Elem t ts
      → Fires t (evaluate i.at i.policy i.signals (state_of older)).0
      → pos_part (required_samples t.when) ≤ streak t ts (i ∷ older)
  fired-streak t ts i older o m f =
      let first = fired_first ts i (state_of older) t o.0 m f in
      let active = i.policy.spec.active_profile in
      let facts = first_ready_facts ts i.signals active i.at (state_of older) {u = t} first in
      let r = (ready_iff i.signals active i.at t (state_of older)).0 facts.1 in
      ground (
        arith,
        visits-first_ready ts i.signals active i.at (state_of older) {u = t} o.0.2 first,
        r.met,
        r.enough,
        count-le-streak t ts older o.1 m,
        inc_bound 31 (count (state_of older) t.name),
      )
