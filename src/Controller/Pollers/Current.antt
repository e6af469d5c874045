-- ===== src/Controller/Pollers/Current.antt =====
-- The policies that the pollers are made from.
use shedpilot.Common.{
  String, sym, subst, ◌∙◌, ◌≡◌, refl, Bool, true, false, some, ℕ, arith, eq_iff, nat_eq_iff,
  Bool-cases, Option-cases, inl, inr, ◌==◌, nat_eq, eq_ℤ-eq,
}
use shedpilot.Api.{AdaptivePolicy}
use shedpilot.Common.Dict.{lookup, erase, lookup-insert, lookup-erase}
use shedpilot.Controller.Detection.{poller_config}
use shedpilot.Controller.Pollers.{Pollers, no_pollers, start, up_to_date, ensure_poller, forget}
use shedpilot.Controller.Pollers.OnePerKey.{OnePerKey}

-- A poller under a key was made from a policy of the generation that the key has, of which `Q` holds.
pub record Origin (Q : AdaptivePolicy → Type 0) (key : String) (id : ℕ) (w : Pollers) : Type 0 where
  pub policy : AdaptivePolicy
  pub made :
      w.made id ≡ some (record { policy = policy; config = poller_config policy.spec.detection })
  pub generation : lookup key w.generations ≡ some policy.generation
  pub holds : Q policy

abbrev pub MadeFrom : (AdaptivePolicy → Type 0) → String → Pollers → Type 0
MadeFrom Q key w = (id : ℕ) → lookup key w.pollers ≡ some id → Origin Q key id w

module _ (Q : AdaptivePolicy → Type 0) where
  start-Origin :
      (key : String) (policy : AdaptivePolicy) (runs : ℕ → Bool) (w : Pollers)
      → Q policy
      → Origin Q key w.next (start key policy runs w)
  unfolding start
  start-Origin key policy runs w q = record {
    policy = policy;
    made = rw ((nat_eq_iff w.next w.next).1 refl) refl;
    generation =
        lookup-insert key key policy.generation w.generations ∙ rw ((eq_iff key key).1 refl) refl;
    holds = q;
  }

  start-MadeFrom :
      (key : String) (policy : AdaptivePolicy) (runs : ℕ → Bool) (w : Pollers)
      → Q policy
      → MadeFrom Q key (start key policy runs w)
  unfolding start
  start-MadeFrom key policy runs w q id found =
      let put = lookup-insert key key w.next w.pollers in
      let is_next : w.next ≡ id = ground (arith, put, found, eq_iff key key) in
      subst (λ i. Origin Q key i (start key policy runs w)) is_next
        (start-Origin key policy runs w q)

  start-MadeFrom_other :
      (key other : String) (policy : AdaptivePolicy) (runs : ℕ → Bool) (w : Pollers)
      → OnePerKey w
      → (key == other) ≡ false
      → MadeFrom Q other w
      → MadeFrom Q other (start key policy runs w)
  unfolding start
  start-MadeFrom_other key other policy runs w one away h id found =
      let put = lookup-insert key other w.next w.pollers in
      let was : lookup other w.pollers ≡ some id = ground (arith, put, found, away) in
      let o = h id was in
      let older = one.old other id was in
      let apart : nat_eq id w.next ≡ false = ground (arith, older, nat_eq_iff id w.next) in
      record {
        policy = o.policy;
        made = rw apart o.made;
        generation = lookup-insert key other policy.generation w.generations ∙ rw away o.generation;
        holds = o.holds;
      }

  pub ensure_poller-MadeFrom :
      (key : String) (policy : AdaptivePolicy) (w : Pollers)
      → Q policy
      → MadeFrom Q key w
      → MadeFrom Q key (ensure_poller key policy w)
  unfolding ensure_poller
  ensure_poller-MadeFrom key policy w q h = elim (Option-cases (lookup key w.pollers)) [
    | inl e ↦ rw (e, ensure_poller) (start-MadeFrom key policy w.runs w q)
    | inr (p, e) ↦ elim (Bool-cases (up_to_date (lookup key w.generations) policy.generation)) [
      | inl f ↦ rw (e, ensure_poller) (rw f h)
      | inr f ↦ rw (e, ensure_poller) (rw f (start-MadeFrom key policy _ w q))
    ]
  ]

  pub ensure_poller-MadeFrom_other :
      (key other : String) (policy : AdaptivePolicy) (w : Pollers)
      → OnePerKey w
      → (key == other) ≡ false
      → MadeFrom Q other w
      → MadeFrom Q other (ensure_poller key policy w)
  unfolding ensure_poller
  ensure_poller-MadeFrom_other key other policy w one away h =
      let restarted =
        λ (runs : ℕ → Bool). start-MadeFrom_other key other policy runs w one away h in
      elim (Option-cases (lookup key w.pollers)) [
        | inl e ↦ rw (e, ensure_poller) (restarted w.runs)
        | inr (p, e) ↦ elim (Bool-cases (up_to_date (lookup key w.generations) policy.generation)) [
          | inl f ↦ rw (e, ensure_poller) (rw f h)
          | inr f ↦ rw (e, ensure_poller) (rw f (restarted _))
        ]
      ]

  pub forget-MadeFrom : (key : String) (w : Pollers) → OnePerKey w → MadeFrom Q key (forget key w)
  unfolding forget
  forget-MadeFrom key w one id = elim (Option-cases (lookup key w.cancels)) [
    | inl e ↦
        let none_there = sym (one.cancel key) ∙ e in
        rw (e, forget)
          (λ (found : lookup key w.pollers ≡ some id). ground (arith, none_there, found))
    | inr (c, e) ↦
        let gone = lookup-erase key key w.pollers in
        rw (e, forget)
          (λ (found : lookup key (erase key w.pollers) ≡ some id).
            ground (arith, gone, found, eq_iff key key))
  ]

  pub forget-MadeFrom_other :
      (key other : String) (w : Pollers)
      → (key == other) ≡ false
      → MadeFrom Q other w
      → MadeFrom Q other (forget key w)
  unfolding forget
  forget-MadeFrom_other key other w away h = elim (Option-cases (lookup key w.cancels)) [
    | inl e ↦ rw (e, forget) h
    | inr (c, e) ↦
        let gone = lookup-erase key other w.pollers in
        rw (e, forget)
          (λ (id : ℕ) (found : lookup other (erase key w.pollers) ≡ some id).
            let o = h id (ground (arith, gone, found, away)) in
            record { policy = o.policy; made = o.made; generation = o.generation; holds = o.holds })
  ]

  pub none-MadeFrom : (key : String) → MadeFrom Q key no_pollers
  unfolding lookup
  none-MadeFrom key id found = ground (arith, found)

-- The poller that runs under a key was made from a policy with this spec.
pub record Runs (key : String) (policy : AdaptivePolicy) (w : Pollers) : Type 0 where
  pub id : ℕ
  pub known : lookup key w.pollers ≡ some id
  pub running : w.runs id ≡ true
  pub origin : Origin (λ q. q.spec ≡ policy.spec) key id w

Runs-start :
    (key : String) (policy : AdaptivePolicy) (runs : ℕ → Bool) (w : Pollers)
    → Runs key policy (start key policy runs w)
unfolding start
Runs-start key policy runs w = record {
  id = w.next;
  known = lookup-insert key key w.next w.pollers ∙ rw ((eq_iff key key).1 refl) refl;
  running = rw ((nat_eq_iff w.next w.next).1 refl) refl;
  origin = start-Origin (λ q. q.spec ≡ policy.spec) key policy runs w refl;
}

pub ensure_poller-Runs :
    (key : String) (policy : AdaptivePolicy) (w : Pollers)
    → OnePerKey w
    → MadeFrom (λ q. q.generation ≡ policy.generation → q.spec ≡ policy.spec) key w
    → Runs key policy (ensure_poller key policy w)
unfolding ensure_poller
ensure_poller-Runs key policy w one h = elim (Option-cases (lookup key w.pollers)) [
  | inl e ↦ rw (e, ensure_poller) (Runs-start key policy w.runs w)
  | inr (p, e) ↦ elim (Bool-cases (up_to_date (lookup key w.generations) policy.generation)) [
    | inl f ↦
        let o = h p e in
        let same = eq_ℤ-eq o.policy.generation policy.generation (rw o.generation at f) in
        rw (e, ensure_poller)
          (rw f (record {
            id = p;
            known = e;
            running = one.alive key p e;
            origin = record {
              policy = o.policy;
              made = o.made;
              generation = o.generation;
              holds = o.holds same;
            };
          }))
    | inr f ↦ rw (e, ensure_poller) (rw f (Runs-start key policy _ w))
  ]
]
