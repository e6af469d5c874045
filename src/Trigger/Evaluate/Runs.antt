-- ===== src/Trigger/Evaluate/Runs.antt =====
-- Evaluations one after another: which trigger a decision names.
use shedpilot.Common.{
  subst, String, ◌≡◌, refl, sym, ap, ◌∙◌, true, false, Option, none, some, List, [], ◌∷◌, ℕ, pos,
  eq_ℤ, arith, eq_iff, Bool-cases, inl, inr,
}
use shedpilot.Common.Float.{Float}
use shedpilot.Api.{TriggerConfig, AdaptivePolicy}
use shedpilot.Trigger.Types.{Signals, Decision, State}
use shedpilot.Trigger.Evaluate.{count, evaluate}
use shedpilot.Trigger.Evaluate.Ready.{ready}
use shedpilot.Trigger.Evaluate.Firing.{UniqueNames, first_ready, Outcome, evaluate-Outcome}
use shedpilot.Trigger.Evaluate.Counters.{
  Elem, Elem-name, visits, ready→visited, count_after, count-evaluate,
}

-- One evaluation's inputs.
pub record Input (F : Type 0) : Type 0 where
  pub at : ℕ
  pub policy : AdaptivePolicy
  pub signals : Signals F

-- The decision names a trigger as fired.
abbrev pub Fires : TriggerConfig → Decision → Type 0
Fires t d = (d.should_switch ≡ true) × (d.trigger_name ≡ t.name)

pub same_of_name :
    (t u : TriggerConfig) (ts : List TriggerConfig)
    → UniqueNames ts
    → Elem t ts
    → Elem u ts
    → u.name ≡ t.name
    → u ≡ t
same_of_name t u [] h m k e = elim m [ ]
same_of_name t u (v ∷ vs) h (inl a) (inl b) e = sym b ∙ a
same_of_name t u (v ∷ vs) h (inl a) (inr b) e =
    absurd (Elem-name v u vs h.0 b (ap (λ (x : TriggerConfig). x.name) a ∙ sym e))
same_of_name t u (v ∷ vs) h (inr a) (inl b) e =
    absurd (Elem-name v t vs h.0 a (ap (λ (x : TriggerConfig). x.name) b ∙ e))
same_of_name t u (v ∷ vs) h (inr a) (inr b) e = same_of_name t u vs h.1 a b e

module _ {F : Type 0} ⦃fl : Float F⦄ where
  -- The evaluations have samples and one list of triggers, of different names.
  abbrev pub Over : List TriggerConfig → Input F → Type 0
  Over ts i =
      (eq_ℤ i.signals.sample_count (pos 0) ≡ false) × (i.policy.spec.triggers ≡ ts) × UniqueNames ts

  pub first_ready_facts :
      (ts : List TriggerConfig) (sig : Signals F) (current : String) (now : ℕ) (st : State)
      {u : TriggerConfig}
      → first_ready sig current now ts st ≡ some u
      → Elem u ts × (ready sig current now u st ≡ true)
  first_ready_facts [] sig current now st e = cc
  first_ready_facts (v ∷ vs) sig current now st {u} e =
      elim (Bool-cases (ready sig current now v st)) [
        | inl r ↦ let same : v ≡ u = ground arith in (inl same, rw (← same) r)
        | inr r ↦
            let rest = first_ready_facts vs sig current now st {u = u} (ground arith) in
            (inr rest.0, rest.1)
      ]

  pub visits-first_ready :
      (ts : List TriggerConfig) (sig : Signals F) (current : String) (now : ℕ) (st : State)
      {u : TriggerConfig}
      → UniqueNames ts
      → first_ready sig current now ts st ≡ some u
      → visits sig current now u ts st ≡ true
  visits-first_ready [] sig current now st h e = cc
  visits-first_ready (v ∷ vs) sig current now st {u} h e =
      elim (Bool-cases (ready sig current now v st)) [
        | inl r ↦
            let same : v ≡ u = ground arith in
            rw (← same) (ground (arith, eq_iff v.name v.name, ready→visited sig current now v st))
        | inr r ↦
            let rest = first_ready_facts vs sig current now st {u = u} (ground arith) in
            ground (
              arith,
              eq_iff v.name u.name,
              Elem-name v u vs h.0 rest.0,
              visits-first_ready vs sig current now st {u = u} h.1 (ground arith),
            )
      ]

  pub Over-Outcome :
      (ts : List TriggerConfig) (i : Input F) (st : State)
      → Over ts i
      → Outcome i.signals i.policy.spec.active_profile i.at st
          (first_ready i.signals i.policy.spec.active_profile i.at ts st)
          (evaluate i.at i.policy i.signals st)
  Over-Outcome ts i st o =
      let active = i.policy.spec.active_profile in
      subst
        (λ us.
          UniqueNames us
          → Outcome i.signals active i.at st (first_ready i.signals active i.at us st)
              (evaluate i.at i.policy i.signals st))
        o.1 (evaluate-Outcome i.at i.policy i.signals st o.0) o.2

  fired_by_name :
      (ts : List TriggerConfig) (sig : Signals F) (current : String) (now : ℕ) (st : State)
      (t : TriggerConfig) (r : Decision × State) (c : Option TriggerConfig)
      → UniqueNames ts
      → Elem t ts
      → first_ready sig current now ts st ≡ c
      → Outcome sig current now st c r
      → Fires t r.0
      → c ≡ some t
  fired_by_name ts sig current now st t r none h m e out f = ground arith
  fired_by_name ts sig current now st t r (some u) h m e out f =
      let facts = first_ready_facts ts sig current now st {u = u} e in
      ap some (same_of_name t u ts h m facts.0 (sym out.2 ∙ f.1))

  -- A trigger that a decision names as fired is the first that was ready.
  pub fired_first :
      (ts : List TriggerConfig) (i : Input F) (st : State) (t : TriggerConfig)
      → Over ts i
      → Elem t ts
      → Fires t (evaluate i.at i.policy i.signals st).0
      → first_ready i.signals i.policy.spec.active_profile i.at ts st ≡ some t
  fired_first ts i st t o m f =
      fired_by_name ts i.signals i.policy.spec.active_profile i.at st t
        (evaluate i.at i.policy i.signals st) _ o.2 m refl (Over-Outcome ts i st o) f

  pub count-Over :
      (ts : List TriggerConfig) (i : Input F) (st : State) (t : TriggerConfig)
      → Over ts i
      → Elem t ts
      → count (evaluate i.at i.policy i.signals st).1 t.name
        ≡ count_after i.signals i.policy.spec.active_profile i.at t ts st
  count-Over ts i st t o m =
      subst
        (λ us.
          UniqueNames us
          → Elem t us
          → count (evaluate i.at i.policy i.signals st).1 t.name
            ≡ count_after i.signals i.policy.spec.active_profile i.at t us st)
        o.1 (count-evaluate i.at i.policy i.signals st t o.0) o.2 m
