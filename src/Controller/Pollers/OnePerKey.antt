-- ===== src/Controller/Pollers/OnePerKey.antt =====
-- The goroutines that run are those of the pollers that the reconciler knows.
use mathlib.Core.Bool.{false≢true}
use shedpilot.Common.{
  String, sym, ap, ◌∙◌, ◌≡◌, ◌≢◌, ◌⊎◌, refl, Bool, true, false, none, some, List, [], ◌∷◌, ℕ, ◌<◌,
  arith, eq_iff, nat_eq_iff, Bool-cases, Option-cases, inl, inr, ◌==◌, nat_eq, if◌then◌else◌, subst,
}
use shedpilot.Api.{AdaptivePolicy}
use shedpilot.Common.Dict.{Dict, lookup, insert, erase, lookup-insert, lookup-erase}
use shedpilot.Controller.Pollers.{
  Pollers, no_pollers, stop, start, up_to_date, ensure_poller, forget, Call, reconciled, deleted,
  after_calls,
}

-- The running goroutines are the pollers of the map, one for each key.
pub record OnePerKey (w : Pollers) : Type 0 where
  pub cancel : (key : String) → lookup key w.cancels ≡ lookup key w.pollers
  pub alive : (key : String) (id : ℕ) → lookup key w.pollers ≡ some id → w.runs id ≡ true
  pub old : (key : String) (id : ℕ) → lookup key w.pollers ≡ some id → id < w.next
  pub owned : (id : ℕ) → w.runs id ≡ true → (key : String) × (lookup key w.pollers ≡ some id)
  pub distinct :
      (a b : String) (id : ℕ) → lookup a w.pollers ≡ some id → lookup b w.pollers ≡ some id → a ≡ b

insert-cases :
    (key k : String) (n id : ℕ) (m : Dict ℕ)
    → lookup k (insert key n m) ≡ some id
    → ((k ≡ key) × (id ≡ n)) ⊎ ((k ≢ key) × (lookup k m ≡ some id))
insert-cases key k n id m found =
    let put = lookup-insert key k n m in
    let same = eq_iff key k in
    elim (Bool-cases (key == k)) [
      | inl e ↦ let is_n : id ≡ n = ground (arith, put, found) in inl (sym (same.0 e), is_n)
      | inr e ↦
          let other : k ≢ key = ground arith in
          let there : lookup k m ≡ some id = ground (arith, put, found) in inr (other, there)
    ]

erase-kept :
    (key k : String) (id : ℕ) (m : Dict ℕ)
    → lookup k (erase key m) ≡ some id
    → (k ≢ key) × (lookup k m ≡ some id)
erase-kept key k id m found =
    let gone = lookup-erase key k m in
    let same = eq_iff key k in
    let other : k ≢ key = ground (arith, gone, found) in
    let there : lookup k m ≡ some id = ground (arith, gone, found) in (other, there)

none-some : (id : ℕ) → none ≢ some id
none-some id = ground arith

cancelled :
    (id c : ℕ) (running : Bool) → (if nat_eq id c then false else running) ≡ true → some c ≢ some id
cancelled id c running h = ground (arith, nat_eq_iff id c)

-- Stopping the goroutine of a key leaves those of the other keys running.
stop-other :
    (key k : String) (id : ℕ) (w : Pollers)
    → OnePerKey w
    → k ≢ key
    → lookup k w.pollers ≡ some id
    → stop (lookup key w.cancels) w.runs id ≡ true
stop-other key k id w h other found = elim (Option-cases (lookup key w.cancels)) [
  | inl e ↦ rw e (h.alive k id found)
  | inr (c, e) ↦ elim (Bool-cases (nat_eq id c)) [
    | inl f ↦
        let same = (nat_eq_iff id c).0 f in
        let here : lookup key w.pollers ≡ some id = sym (h.cancel key) ∙ e ∙ ap some (sym same) in
        absurd (other (h.distinct k key id found here))
    | inr f ↦ rw (e, f) (h.alive k id found)
  ]
]

-- A goroutine that runs after the one of a key is stopped belongs to another key.
stop-owned :
    (key : String) (id : ℕ) (w : Pollers)
    → OnePerKey w
    → stop (lookup key w.cancels) w.runs id ≡ true
    → (k : String) × (k ≢ key) × (lookup k w.pollers ≡ some id)
stop-owned key id w h running =
    let cancels = h.cancel key in
    elim (Option-cases (lookup key w.cancels)) [
      | inl e ↦
          let (k, found) = h.owned id (rw e at running) in
          let other : k ≢ key =
            λ q. none-some id (sym e ∙ cancels ∙ ap (λ x. lookup x w.pollers) (sym q) ∙ found) in
          (k, other, found)
      | inr (c, e) ↦
          let stopped = rw e at running in
          let alive : w.runs id ≡ true = ground arith in
          let (k, found) = h.owned id alive in
          let other : k ≢ key = λ q.
            cancelled id c (w.runs id) stopped
              (sym e ∙ cancels ∙ ap (λ x. lookup x w.pollers) (sym q) ∙ found) in
          (k, other, found)
    ]

set_alive :
    (id n : ℕ) (running : Bool) → running ≡ true → (if nat_eq id n then true else running) ≡ true
set_alive id n running h = ground arith

started :
    (key : String) (id : ℕ) (w : Pollers)
    → nat_eq id w.next ≡ true
    → lookup key (insert key w.next w.pollers) ≡ some id
started key id w new =
    let put = lookup-insert key key w.next w.pollers in
    ground (arith, put, eq_iff key key, nat_eq_iff id w.next)

kept_other :
    (key k : String) (id : ℕ) (w : Pollers)
    → k ≢ key
    → lookup k w.pollers ≡ some id
    → lookup k (insert key w.next w.pollers) ≡ some id
kept_other key k id w other found =
    let put = lookup-insert key k w.next w.pollers in ground (arith, put, eq_iff key k)

fresh : (id n : ℕ) → id ≡ n → ¬ (id < n)
fresh id n e h = omega arith

start-OnePerKey :
    (key : String) (policy : AdaptivePolicy) (w : Pollers)
    → OnePerKey w
    → OnePerKey (start key policy (stop (lookup key w.cancels) w.runs) w)
unfolding start
start-OnePerKey key policy w h = record {
  cancel = λ k.
      let p = lookup-insert key k w.next w.pollers in
      let c = lookup-insert key k w.next w.cancels in ground (arith, p, c, h.cancel k);
  alive = λ k id found. elim (insert-cases key k w.next id w.pollers found) [
    | inl (at, new) ↦ rw ((nat_eq_iff id w.next).1 new) refl
    | inr (other, there) ↦
        set_alive id w.next (stop (lookup key w.cancels) w.runs id)
          (stop-other key k id w h other there)
  ];
  old = λ k id found. elim (insert-cases key k w.next id w.pollers found) [
    | inl (at, new) ↦ omega (arith, new)
    | inr (other, there) ↦ omega (arith, h.old k id there)
  ];
  owned = λ id running. elim (Bool-cases (nat_eq id w.next)) [
    | inl new ↦ (key, started key id w new)
    | inr earlier ↦
        let (k, other, found) = stop-owned key id w h (rw earlier at running) in
        (k, kept_other key k id w other found)
  ];
  distinct = λ a b id x y. elim (insert-cases key a w.next id w.pollers x) [
    | inl (at, new) ↦ elim (insert-cases key b w.next id w.pollers y) [
      | inl (at', new') ↦ at ∙ sym at'
      | inr (other, there) ↦ absurd (fresh id w.next new (h.old b id there))
    ]
    | inr (other, there) ↦ elim (insert-cases key b w.next id w.pollers y) [
      | inl (at', new) ↦ absurd (fresh id w.next new (h.old a id there))
      | inr (other', there') ↦ h.distinct a b id there there'
    ]
  ];
}

pub ensure_poller-OnePerKey :
    (key : String) (policy : AdaptivePolicy) (w : Pollers)
    → OnePerKey w
    → OnePerKey (ensure_poller key policy w)
unfolding ensure_poller
ensure_poller-OnePerKey key policy w h =
    let started = start-OnePerKey key policy w h in
    elim (Option-cases (lookup key w.pollers)) [
      | inl e ↦
          let none_running = h.cancel key ∙ e in rw (e, ensure_poller) (rw none_running at started)
      | inr (p, e) ↦ elim (Bool-cases (up_to_date (lookup key w.generations) policy.generation)) [
        | inl f ↦ rw (e, ensure_poller) (rw f h)
        | inr f ↦ rw (e, ensure_poller) (rw f started)
      ]
    ]

erased_same :
    (key k : String) (w : Pollers)
    → OnePerKey w
    → lookup k (erase key w.cancels) ≡ lookup k (erase key w.pollers)
erased_same key k w h =
    let p = lookup-erase key k w.pollers in
    let c = lookup-erase key k w.cancels in ground (arith, p, c, h.cancel k)

erased_other :
    (key k : String) (id : ℕ) (w : Pollers)
    → k ≢ key
    → lookup k w.pollers ≡ some id
    → lookup k (erase key w.pollers) ≡ some id
erased_other key k id w other found =
    let p = lookup-erase key k w.pollers in ground (arith, p, eq_iff key k)

erased-OnePerKey :
    (key : String) (w : Pollers)
    → OnePerKey w
    → OnePerKey (record w {
      pollers = erase key w.pollers;
      cancels = erase key w.cancels;
      runs = stop (lookup key w.cancels) w.runs;
    })
erased-OnePerKey key w h = record {
  cancel = λ k. erased_same key k w h;
  alive = λ k id found.
      let kept = erase-kept key k id w.pollers found in stop-other key k id w h kept.0 kept.1;
  old = λ k id found. h.old k id (erase-kept key k id w.pollers found).1;
  owned = λ id running.
      let (k, other, found) = stop-owned key id w h running in
      (k, erased_other key k id w other found);
  distinct = λ a b id x y.
      h.distinct a b id (erase-kept key a id w.pollers x).1 (erase-kept key b id w.pollers y).1;
}

pub forget-OnePerKey : (key : String) (w : Pollers) → OnePerKey w → OnePerKey (forget key w)
unfolding forget
forget-OnePerKey key w h = elim (Option-cases (lookup key w.cancels)) [
  | inl e ↦ rw (e, forget) h
  | inr (c, e) ↦
      let erased = erased-OnePerKey key w h in
      rw (e, forget)
        (subst
          (λ o. OnePerKey (record w {
            pollers = erase key w.pollers;
            cancels = erase key w.cancels;
            runs = stop o w.runs;
          }))
          e erased)
]

pub none-OnePerKey : OnePerKey no_pollers
unfolding lookup
none-OnePerKey = record {
  cancel = λ key. refl;
  alive = λ key id found. absurd (none-some id found);
  old = λ key id found. absurd (none-some id found);
  owned = λ id running. absurd (false≢true running);
  distinct = λ a b id x y. absurd (none-some id x);
}

-- After whatever calls, the goroutines that run are those of the pollers in the map, one for each
-- policy: a restart or a deletion leaves none behind, and stops no other.
after_calls-OnePerKey : (calls : List Call) → OnePerKey (after_calls calls)
after_calls-OnePerKey [] = none-OnePerKey
after_calls-OnePerKey (reconciled key policy ∷ calls) =
    ensure_poller-OnePerKey key policy (after_calls calls) (after_calls-OnePerKey calls)
after_calls-OnePerKey (deleted key ∷ calls) =
    forget-OnePerKey key (after_calls calls) (after_calls-OnePerKey calls)
