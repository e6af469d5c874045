-- ===== src/Controller/Conditions.antt =====
-- internal/controller/adaptivepolicy_controller.go: the conditions and the decisions in the status.
use shedpilot.Common.{
  String, ap, ◌∙◌, ◌≡◌, refl, Option, none, some, List, [], ◌∷◌, ℕ, ℤ, arith, eq_iff, Bool-cases,
  inl, inr, ◌==◌, if◌then◌else◌, take, zero, suc,
}
use shedpilot.Api.{
  Condition, DecisionRecord, AdaptivePolicyStatus, condition_ready, condition_degraded,
}

-- The condition that stands for the old one of the same kind.
unfoldable pub updated : ℕ → Condition → Condition → Condition
updated now c old =
    if old.status == c.status
    then record old {
      message = c.message;
      reason = c.reason;
      observed_generation = c.observed_generation;
    }
    else record c { last_transition_time = now }

unfoldable pub set_condition : ℕ → Condition → List Condition → List Condition
unfolding updated
set_condition now c [] = record c { last_transition_time = now } ∷ []
set_condition now c (old ∷ rest) =
    let later = set_condition now c rest in
    if old.kind == c.kind then updated now c old ∷ rest else old ∷ later

abbrev pub condition : String → String → String → String → ℤ → Condition
condition kind status reason message generation = record {
  kind = kind;
  status = status;
  observed_generation = generation;
  last_transition_time = 0;
  reason = reason;
  message = message;
}

-- markDegraded, up to the patch of the status.
unfoldable pub mark_degraded : ℕ → String → String → ℤ → List Condition → List Condition
mark_degraded now reason message generation conditions =
    set_condition now (condition condition_ready "False" reason message generation)
      (set_condition now (condition condition_degraded "True" reason message generation) conditions)

-- The history of decisions, the newest first.
unfoldable pub record_decision : DecisionRecord → AdaptivePolicyStatus → AdaptivePolicyStatus
record_decision d status = record status {
  last_decision = some d;
  decision_history = take 10 (d ∷ status.decision_history);
}

-- The first condition of a kind.
abbrev pub condition_of : String → List Condition → Option Condition
condition_of kind [] = none
condition_of kind (c ∷ rest) = if c.kind == kind then some c else condition_of kind rest

-- What a condition becomes: a new one, or the old one, whose time stays while its status does.
abbrev pub merged : ℕ → Condition → Option Condition → Condition
merged now c none = record c { last_transition_time = now }
merged now c (some old) = record c {
  last_transition_time = if old.status == c.status then old.last_transition_time else now;
}

updated_lem :
    (now : ℕ) (c old : Condition) → old.kind ≡ c.kind → updated now c old ≡ merged now c (some old)
unfolding updated
updated_lem now c old e =
    let made : String → String → Condition = λ kind status. record {
      kind = kind;
      status = status;
      observed_generation = c.observed_generation;
      last_transition_time = old.last_transition_time;
      reason = c.reason;
      message = c.message;
    } in
    elim (Bool-cases (old.status == c.status)) [
      | inl s ↦
          let same = (eq_iff old.status c.status).0 s in
          rw s (ap (λ kind. made kind old.status) e ∙ ap (λ status. made c.kind status) same)
      | inr s ↦ rw s refl
    ]

-- Setting a condition sets the condition of its kind, which keeps the time of its last change of
-- status, and no condition of another kind.
condition_of-set_condition :
    (now : ℕ) (c : Condition) (conditions : List Condition) (kind : String)
    → condition_of kind (set_condition now c conditions) ≡ (
        if c.kind == kind
        then some (merged now c (condition_of c.kind conditions))
        else condition_of kind conditions)
unfolding set_condition
condition_of-set_condition now c [] kind = refl
condition_of-set_condition now c (old ∷ rest) kind =
    let rec = condition_of-set_condition now c rest kind in
    elim (Bool-cases (old.kind == c.kind)) [
      | inl e ↦
          let same = (eq_iff old.kind c.kind).0 e in
          rw e (rw (updated_lem now c old same, same) (ground arith))
      | inr e ↦
          rw e
            (ground (arith, rec, eq_iff old.kind kind, eq_iff c.kind kind, eq_iff old.kind c.kind))
    ]

-- The status of the condition of a kind.
abbrev status_of_option : Option Condition → Option String
status_of_option none = none
status_of_option (some c) = some c.status

abbrev pub status_at : String → List Condition → Option String
status_at kind conditions = status_of_option (condition_of kind conditions)

status-merged :
    (now : ℕ) (c : Condition) (old : Option Condition)
    → status_of_option (some (merged now c old)) ≡ some c.status
status-merged now c none = refl
status-merged now c (some old) = refl

pub status_at-set_condition :
    (now : ℕ) (c : Condition) (conditions : List Condition) (kind : String)
    → status_at kind (set_condition now c conditions)
      ≡ (if c.kind == kind then some c.status else status_at kind conditions)
status_at-set_condition now c conditions kind =
    let set = condition_of-set_condition now c conditions kind in
    let kept = status-merged now c (condition_of c.kind conditions) in
    elim (Bool-cases (c.kind == kind)) [
      | inl e ↦ rw e (ap status_of_option (rw e at set) ∙ kept)
      | inr e ↦ rw e (ap status_of_option (rw e at set))
    ]

take-take {ℓ} : {A : Type ℓ} (n : ℕ) (xs : List A) → take n (take (suc n) xs) ≡ take n xs
take-take zero xs = refl
take-take (suc n) [] = refl
take-take (suc n) (x ∷ xs) = ap (λ rest. x ∷ rest) (take-take n xs)

-- The status after decisions, the newest first.
abbrev after_decisions : AdaptivePolicyStatus → List DecisionRecord → AdaptivePolicyStatus
after_decisions status [] = status
after_decisions status (d ∷ ds) = record_decision d (after_decisions status ds)

-- Whatever was decided, a status that began without history holds the ten newest decisions.
decision_history_lem :
    (status : AdaptivePolicyStatus) (ds : List DecisionRecord)
    → (after_decisions (record status { decision_history = [] }) ds).decision_history ≡ take 10 ds
unfolding record_decision
decision_history_lem status [] = refl
decision_history_lem status (d ∷ ds) =
    ap (λ rest. d ∷ take 9 rest) (decision_history_lem status ds)
    ∙ ap (λ rest. d ∷ rest) (take-take 9 ds)
