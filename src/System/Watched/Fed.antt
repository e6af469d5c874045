-- ===== src/System/Watched/Fed.antt =====
-- The pollers that run, and what each was made from.
use shedpilot.Common.{
  String, ap, subst, sym, ◌∙◌, ◌≡◌, refl, false, Option, none, some, ℕ, Bool-cases, inl, inr,
  nat_eq, ltb,
}
use shedpilot.Common.Float.{Float}
use shedpilot.Api.{AdaptivePolicy}
use shedpilot.Trigger.Types.{Signals}
use shedpilot.Poller.Config.{with_defaults}
use shedpilot.Poller.Channel.{receive}
use shedpilot.Poller.Tick.{is_breaching}
use shedpilot.Poller.Run.{Poller, new_poller, after_scrape}
use shedpilot.Poller.Run.Agrees.{Agrees, after_scrape-Agrees, new_poller-Agrees, none_waits}
use shedpilot.Controller.Pollers.{Pollers, Made}
use shedpilot.Controller.Manager.{Manager, Env, Fetched, found, gone, unreachable, current}
use shedpilot.Controller.Reconcile.{switching}
use shedpilot.System.Watched.{made_of, feeds_after, taken_at, overwritten, Steady, reread}
use shedpilot.System.Watched.Grows.{Grows, policy_in}

-- The policy read again, where there is one, has the triggers of the one read first.
unfoldable pub Renews : Fetched → Fetched → Type 0
Renews x y =
    (read again : AdaptivePolicy)
    → x ≡ found read
    → y ≡ found again
    → again.spec.triggers ≡ read.spec.triggers

-- A poller is what it was made as: its triggers, its settings, and what waits in its channel.
unfoldable pub Fed : {F : Type 0} ⦃fl : Float F⦄ → Option Made → Poller F → Type 0
Fed none p = Unit
Fed (some x) p =
    (p.policy.spec.triggers ≡ x.policy.spec.triggers) × (p.cfg ≡ with_defaults x.config) × Agrees p

module _ {F : Type 0} ⦃fl : Float F⦄ where
  made_of-Fed : (o : Option Made) (p : Poller F) → Fed o (made_of o p)
  unfolding Fed new_poller
  made_of-Fed none p = tt
  made_of-Fed (some x) p = (refl, refl, new_poller-Agrees x.policy x.config)

  pub feeds_after-Fed :
      (x : Fetched) (w w' : Pollers) (feeds : ℕ → Poller F) (id : ℕ)
      → Grows x w w'
      → Fed (w.made id) (feeds id)
      → Fed (w'.made id) (feeds_after w w' feeds id)
  feeds_after-Fed x w w' feeds id g h = elim (Bool-cases (ltb id w.next)) [
    | inl e ↦ rw e (subst (λ o. Fed o (feeds id)) (sym (g.same id e)) h)
    | inr e ↦ rw e (made_of-Fed (w'.made id) (feeds id))
  ]

  Fed-with_out :
      (o : Option Made) (p : Poller F) → Fed o p → Fed o (record p { out = (receive p.out).0 })
  unfolding Fed
  Fed-with_out none p h = tt
  Fed-with_out (some x) p h = (
    h.0,
    h.1,
    record { range = h.2.range; agrees = λ sig waits. absurd (none_waits p.out sig waits) },
  )

  pub taken_at-Fed :
      (t : Option ℕ) (o : Option Made) (feeds : ℕ → Poller F) (id : ℕ)
      → Fed o (feeds id)
      → Fed o (taken_at t feeds id)
  unfolding taken_at
  taken_at-Fed none o feeds id h = h
  taken_at-Fed (some t) o feeds id h = elim (Bool-cases (nat_eq id t)) [
    | inl e ↦ rw e (Fed-with_out o (feeds id) h)
    | inr e ↦ rw e h
  ]

  Fed-with_policy :
      (again : AdaptivePolicy) (o : Option Made) (p : Poller F)
      → ((x : Made) → o ≡ some x → again.spec.triggers ≡ x.policy.spec.triggers)
      → Fed o p
      → Fed o (record p { policy = again })
  unfolding Fed
  Fed-with_policy again none p same h = tt
  Fed-with_policy again (some x) p same h =
      let alike = h.0 ∙ sym (same x refl) in
      (
        same x refl,
        h.1,
        record {
          range = h.2.range;
          agrees = λ sig waits.
              subst (λ ts. is_breaching ts sig ≡ p.state.firing) alike (h.2.agrees sig waits);
        },
      )

  pub overwritten-Fed :
      (x y : Fetched) (w w' : Pollers) (feeds : ℕ → Poller F) (id : ℕ)
      → Grows x w w'
      → Renews x y
      → Fed (w'.made id) (feeds id)
      → Fed (w'.made id) (overwritten y w feeds id)
  unfolding overwritten Renews
  overwritten-Fed x (found again) w w' feeds id g renews h = elim (Bool-cases (ltb id w.next)) [
    | inl e ↦ rw e h
    | inr e ↦ rw e (
        Fed-with_policy again (w'.made id) (feeds id)
          (λ m made. renews m.policy again (g.new id m e made) refl) h)
  ]
  overwritten-Fed x gone w w' feeds id g renews h = h
  overwritten-Fed x unreachable w w' feeds id g renews h = h

  pub tick-Fed :
      (o : Option Made) (scrape : Option (Signals F)) (p : Poller F)
      → Fed o p
      → Fed o (after_scrape false false scrape p)
  unfolding Fed after_scrape
  tick-Fed none scrape p h = tt
  tick-Fed (some x) scrape p h = (h.0, h.1, after_scrape-Agrees false false scrape p h.2)

  pub Steady-Renews :
      (env : Env F) (key : String) (m : Manager F)
      → Steady env
      → Renews env.fetched (reread env key m env.fetched)
  unfolding Renews
  Steady-Renews env key m steady read again first second =
      let it : current (switching env key read m).switched env.refetched read ≡ found again =
        ap (reread env key m) (sym first) ∙ second in
      elim (Bool-cases (switching env key read m).switched) [
        | inl e ↦ steady read again first (rw e at it)
        | inr e ↦
            let same : found read ≡ found again = rw e at it in
            ap (λ x. (policy_in read x).spec.triggers) (sym same)
      ]
