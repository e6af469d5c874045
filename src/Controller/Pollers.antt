-- ===== src/Controller/Pollers.antt =====
-- internal/controller/adaptivepolicy_controller.go: the background pollers, one goroutine for each
-- policy. A poller and the context that stops it are made together and bear one number.
pub mod OnePerKey
pub mod Current
use shedpilot.Common.{
  String, ◌≡◌, refl, Bool, true, false, Option, none, some, List, [], ◌∷◌, ℕ, suc, ◌<◌, ℤ, eq_ℤ,
  arith, eq_iff, nat_eq_iff, Bool-cases, Option-cases, inl, inr, ◌==◌, nat_eq, if◌then◌else◌,
}
use shedpilot.Api.{AdaptivePolicy}
use shedpilot.Poller.Config.{PollerConfig}
use shedpilot.Controller.Detection.{poller_config}
use shedpilot.Common.Dict.{Dict, lookup, insert, erase, lookup-insert, lookup-erase}

-- What NewPoller was called with.
pub record Made : Type 0 where
  pub policy : AdaptivePolicy
  pub config : PollerConfig

pub record Pollers : Type 0 where
  pub pollers : Dict ℕ
  pub cancels : Dict ℕ
  pub generations : Dict ℤ
  -- the pollers by their numbers, which of their goroutines run, and the number of the next one
  pub made : ℕ → Option Made
  pub runs : ℕ → Bool
  pub next : ℕ

abbrev pub no_pollers : Pollers
no_pollers = record {
  pollers = [];
  cancels = [];
  generations = [];
  made = λ id. none;
  runs = λ id. false;
  next = 0;
}

-- cancel(): the goroutine of the context ends.
abbrev pub stop : Option ℕ → (ℕ → Bool) → ℕ → Bool
stop none runs id = runs id
stop (some cancelled) runs id = if nat_eq id cancelled then false else runs id

-- The generation that a poller was started for is the policy's.
abbrev pub up_to_date : Option ℤ → ℤ → Bool
up_to_date none generation = false
up_to_date (some g) generation = eq_ℤ g generation

-- A new poller under the key.
unfoldable pub start : String → AdaptivePolicy → (ℕ → Bool) → Pollers → Pollers
start key policy runs w = record {
  pollers = insert key w.next w.pollers;
  cancels = insert key w.next w.cancels;
  generations = insert key policy.generation w.generations;
  made = λ id.
      if nat_eq id w.next
      then some (record { policy = policy; config = poller_config policy.spec.detection })
      else w.made id;
  runs = λ id. if nat_eq id w.next then true else runs id;
  next = suc w.next;
}

unfoldable pub ensure_poller : String → AdaptivePolicy → Pollers → Pollers
unfolding start
ensure_poller key policy w = elim (lookup key w.pollers) [
  | none ↦ start key policy w.runs w
  | some p ↦
      if up_to_date (lookup key w.generations) policy.generation
      then w
      else start key policy (stop (lookup key w.cancels) w.runs) w
]

-- What Reconcile does for a policy that is gone; its generation stays.
unfoldable pub forget : String → Pollers → Pollers
forget key w = elim (lookup key w.cancels) [
  | none ↦ w
  | some cancelled ↦ record w {
    pollers = erase key w.pollers;
    cancels = erase key w.cancels;
    runs = stop (some cancelled) w.runs;
  }
]

-- The calls of the reconciler, the last one first.
pub data Call : Type 0 where
  reconciled : String → AdaptivePolicy → Call
  deleted : String → Call

abbrev pub call : Call → Pollers → Pollers
call (reconciled key policy) w = ensure_poller key policy w
call (deleted key) w = forget key w

abbrev pub after_calls : List Call → Pollers
after_calls [] = no_pollers
after_calls (c ∷ calls) = call c (after_calls calls)
