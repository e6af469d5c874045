-- ===== src/System/Watched/Grows.antt =====
-- The pollers before and after a reconcile.
use shedpilot.Common.{
  String, ap, subst, sym, ◌∙◌, ◌≡◌, refl, Bool, true, false, Option, none, some, ℕ, arith,
  nat_eq_iff, Bool-cases, Option-cases, inl, inr, nat_eq, ltb,
}
use shedpilot.Common.Dict.{lookup}
use shedpilot.Common.Float.{Float}
use shedpilot.Api.{AdaptivePolicy}
use shedpilot.Controller.Pollers.{Pollers, Made, start, up_to_date, ensure_poller, forget}
use shedpilot.Controller.Manager.{Manager, Env, Fetched, found, gone, unreachable}
use shedpilot.Controller.Reconcile.{reconcile, forgotten}
use shedpilot.Controller.Reconcile.Cases.{reconcile-cases}
use shedpilot.Controller.Reconcile.Specs.{pollers-act}

-- How the pollers that are made grow in number: those before stay, a new one is made from the policy.
pub record Grows (x : Fetched) (w w' : Pollers) : Type 0 where
  pub same : (id : ℕ) → ltb id w.next ≡ true → w'.made id ≡ w.made id
  pub new : (id : ℕ) (m : Made) → ltb id w.next ≡ false → w'.made id ≡ some m → x ≡ found m.policy
  pub beyond : (id : ℕ) → ltb id w'.next ≡ false → w'.made id ≡ none

abbrev pub Unmade : Pollers → Type 0
Unmade w = (id : ℕ) → ltb id w.next ≡ false → w.made id ≡ none

Grows-refl : (x : Fetched) (w : Pollers) → Unmade w → Grows x w w
Grows-refl x w h = record {
  same = λ id old. refl;
  new = λ id m young made. ground (arith, h id young, made);
  beyond = h;
}

abbrev pub policy_in : AdaptivePolicy → Fetched → AdaptivePolicy
policy_in p (found policy) = policy
policy_in p gone = p
policy_in p unreachable = p

abbrev policy_of : AdaptivePolicy → Option Made → AdaptivePolicy
policy_of p none = p
policy_of p (some m) = m.policy

Grows-start :
    (x : Fetched) (key : String) (policy : AdaptivePolicy) (runs : ℕ → Bool) (w : Pollers)
    → x ≡ found policy
    → Unmade w
    → Grows x w (start key policy runs w)
unfolding start
Grows-start x key policy runs w read h = record {
  same = λ id old. ground (arith, old, nat_eq_iff id w.next);
  new = λ id m young made. elim (Bool-cases (nat_eq id w.next)) [
    | inl e ↦ read ∙ ap (λ o. found (policy_of policy o)) (rw e at made)
    | inr e ↦ let was : w.made id ≡ some m = rw e at made in ground (arith, h id young, was)
  ];
  beyond = λ id young. ground (arith, young, h id (ground (arith, young)), nat_eq_iff id w.next);
}

Grows-ensure_poller :
    (x : Fetched) (key : String) (policy : AdaptivePolicy) (w : Pollers)
    → x ≡ found policy
    → Unmade w
    → Grows x w (ensure_poller key policy w)
unfolding ensure_poller
Grows-ensure_poller x key policy w read h = elim (Option-cases (lookup key w.pollers)) [
  | inl e ↦ rw (e, ensure_poller) (Grows-start x key policy w.runs w read h)
  | inr (p, e) ↦ elim (Bool-cases (up_to_date (lookup key w.generations) policy.generation)) [
    | inl f ↦ rw (e, ensure_poller) (rw f (Grows-refl x w h))
    | inr f ↦ rw (e, ensure_poller) (rw f (Grows-start x key policy _ w read h))
  ]
]

Grows-forget : (x : Fetched) (key : String) (w : Pollers) → Unmade w → Grows x w (forget key w)
unfolding forget
Grows-forget x key w h = elim (Option-cases (lookup key w.cancels)) [
  | inl e ↦ rw (e, forget) (Grows-refl x w h)
  | inr (c, e) ↦
      let g = Grows-refl x w h in
      rw (e, forget) (record { same = g.same; new = g.new; beyond = g.beyond })
]

module _ {F : Type 0} ⦃fl : Float F⦄ where
  pub Grows-reconcile :
      (env : Env F) (key : String) (m : Manager F)
      → Unmade m.pollers
      → Grows env.fetched m.pollers (reconcile env key m).manager.pollers
  unfolding forgotten
  Grows-reconcile env key m h =
      reconcile-cases (λ done. Grows env.fetched m.pollers done.manager.pollers) env key m
        (λ policy b read accepted meshed.
          subst (Grows env.fetched m.pollers) (sym (pollers-act env key b policy m))
            (Grows-ensure_poller env.fetched key policy m.pollers read h))
        (Grows-forget env.fetched key m.pollers h)
        (λ after failed status. Grows-refl env.fetched m.pollers h)
