-- ===== src/Trigger/Evaluate/Counters.antt =====
-- What evaluations do to the sample counter of one trigger.
use shedpilot.Common.{
  ◌++◌, some, eq_ℤ, is_nonempty, none, String, ◌≡◌, ◌≢◌, refl, Bool, true, false, not, ◌&&◌, Option,
  List, [], ◌∷◌, ℕ, ℤ, pos, arith, eq_iff, Bool-cases, ◌⊎◌, inl, inr, All, ◌==◌, if◌then◌else◌,
}
use shedpilot.Common.Dict.{insert, lookup-insert}
use shedpilot.Common.Float.{Float}
use shedpilot.Api.{AdaptivePolicy, TriggerConfig}
use shedpilot.Trigger.Types.{Signals, Decision, State}
use shedpilot.Trigger.Evaluate.{evaluate, count, skipped, counted, loop}
use shedpilot.Trigger.Evaluate.Ready.{count-set_count, ready, passed, fired, closest_of}
use shedpilot.Trigger.Evaluate.Firing.{
  UniqueNames, first_ready, SameFor, SameFor-passed, ready-SameFor, loop-cons,
}

-- The trigger stands in the list.
abbrev pub Elem : TriggerConfig → List TriggerConfig → Type 0
Elem t [] = ⊥
Elem t (u ∷ us) = (u ≡ t) ⊎ Elem t us

pub Elem-name :
    (u t : TriggerConfig) (us : List TriggerConfig)
    → All (λ v. u.name ≢ v.name) us
    → Elem t us
    → u.name ≢ t.name
Elem-name u t [] h m = elim m [ ]
Elem-name u t (v ∷ vs) h (inl e) = rw (← e) h.0
Elem-name u t (v ∷ vs) h (inr m) = Elem-name u t vs h.1 m

pub Elem-middle : (pre post : List TriggerConfig) (t : TriggerConfig) → Elem t (pre ++ t ∷ post)
Elem-middle [] post t = inl refl
Elem-middle (u ∷ us) post t = inr (Elem-middle us post t)

module _ {F : Type 0} ⦃fl : Float F⦄ (sig : Signals F) (current : String) (now : ℕ) where
  -- The loop reaches the trigger, no trigger before it being ready, and does not skip it.
  abbrev pub visits : TriggerConfig → List TriggerConfig → State → Bool
  visits t [] st = false
  visits t (u ∷ us) st =
      if u.name == t.name
      then not (skipped current now t st)
      else not (ready sig current now u st) && visits t us st

  -- The counter after the loop: cleared if the trigger fires, counted if it is visited, else kept.
  abbrev pub count_after : TriggerConfig → List TriggerConfig → State → ℤ
  count_after t ts st =
      if visits t ts st
      then (if ready sig current now t st then pos 0 else counted sig t st)
      else count st t.name

  count-fired :
      (u : TriggerConfig) (k : String) (st : State)
      → count (fired sig current now u st) k ≡ (if u.name == k then pos 0 else count st k)
  unfolding fired
  count-fired u k st =
      let counts = insert u.name (counted sig u st) st.consecutive_bad_samples in
      ground (
        arith,
        lookup-insert u.name k (pos 0) counts,
        lookup-insert u.name k (counted sig u st) st.consecutive_bad_samples,
      )

  count-passed :
      (u : TriggerConfig) (k : String) (st : State)
      → count (passed sig current now u st) k ≡ (
          if u.name == k
          then (if skipped current now u st then count st k else counted sig u st)
          else count st k)
  unfolding passed
  count-passed u k st = elim (Bool-cases (skipped current now u st)) [
    | inl s ↦ rw s (ground arith)
    | inr s ↦ rw s (count-set_count u.name k (counted sig u st) st)
  ]

  skipped-SameFor :
      (t : TriggerConfig) (a b : State)
      → SameFor t.name a b
      → skipped current now t a ≡ skipped current now t b
  unfolding skipped
  skipped-SameFor t a b h = ground arith

  counted-SameFor :
      (t : TriggerConfig) (a b : State) → SameFor t.name a b → counted sig t a ≡ counted sig t b
  unfolding counted
  counted-SameFor t a b h = ground arith

  visits-passed :
      (u t : TriggerConfig) (ts : List TriggerConfig) (st : State)
      → u.name ≢ t.name
      → All (λ v. u.name ≢ v.name) ts
      → visits t ts (passed sig current now u st) ≡ visits t ts st
  visits-passed u t [] st n h = refl
  visits-passed u t (v ∷ vs) st n h =
      let st' = passed sig current now u st in
      rw (
        skipped-SameFor t st' st (SameFor-passed sig current now u t.name st n),
        ready-SameFor sig current now v st' st (SameFor-passed sig current now u v.name st h.0),
        visits-passed u t vs st n h.1,
      )

  count_after-passed :
      (u t : TriggerConfig) (ts : List TriggerConfig) (st : State)
      → u.name ≢ t.name
      → All (λ v. u.name ≢ v.name) ts
      → count_after t ts (passed sig current now u st) ≡ count_after t ts st
  count_after-passed u t ts st n h =
      let st' = passed sig current now u st in
      let same = SameFor-passed sig current now u t.name st n in
      ground (
        arith,
        visits-passed u t ts st n h,
        ready-SameFor sig current now t st' st same,
        counted-SameFor t st' st same,
        same.0,
      )

  -- A loop over triggers of other names keeps the counter.
  count-loop_other :
      (k : String) (ts : List TriggerConfig) (c : Option Decision) (st : State)
      → All (λ v. k ≢ v.name) ts
      → count (loop sig current now ts c st).1 k ≡ count st k
  count-loop_other k [] c st h = unfold loop in refl
  count-loop_other k (v ∷ vs) c st h =
      let rest =
        count-loop_other k vs (closest_of sig current now v c st) (passed sig current now v st)
          h.1 in
      rw loop-cons
        (ground (arith, rest, count-passed v k st, count-fired v k st, eq_iff v.name k, h.0))

  pub ready→visited :
      (t : TriggerConfig) (st : State)
      → ready sig current now t st ≡ true
      → skipped current now t st ≡ false
  unfolding ready
  ready→visited t st r = ground arith

  -- The counter of a trigger of the list after the loop.
  pub count-loop :
      (t : TriggerConfig) (ts : List TriggerConfig) (c : Option Decision) (st : State)
      → UniqueNames ts
      → Elem t ts
      → count (loop sig current now ts c st).1 t.name ≡ count_after t ts st
  count-loop t [] c st u m = elim m [ ]
  count-loop t (v ∷ vs) c st u (inl e) = rw (← e) (
      rw loop-cons (
        ground (
          arith,
          eq_iff v.name v.name,
          count-fired v v.name st,
          count-passed v v.name st,
          ready→visited v st,
          count-loop_other v.name vs (closest_of sig current now v c st)
              (passed sig current now v st) u.0,
        )))
  count-loop t (v ∷ vs) c st u (inr m) =
      let n = Elem-name v t vs u.0 m in
      let rest =
        count-loop t vs (closest_of sig current now v c st) (passed sig current now v st) u.1 m in
      rw loop-cons (
        ground (
          arith,
          eq_iff v.name t.name,
          n,
          rest,
          count_after-passed v t vs st n u.0,
          count-fired v t.name st,
        ))

  guarded_count :
      (t : TriggerConfig) (ts : List TriggerConfig) (d : Decision) (st : State)
      → UniqueNames ts
      → Elem t ts
      → count (if not (is_nonempty ts) then (d, st) else loop sig current now ts none st).1 t.name
        ≡ count_after t ts st
  guarded_count t [] d st u m = elim m [ ]
  guarded_count t (v ∷ vs) d st u m = count-loop t (v ∷ vs) none st u m

  -- A trigger that stands after one that is ready is not visited.
  visits-after_ready :
      (pre post : List TriggerConfig) (t u : TriggerConfig) (st : State)
      → UniqueNames (pre ++ t ∷ post)
      → first_ready sig current now pre st ≡ some u
      → visits t (pre ++ t ∷ post) st ≡ false
  visits-after_ready [] post t u st h e = cc
  visits-after_ready (v ∷ vs) post t u st h e =
      let n = Elem-name v t (vs ++ t ∷ post) h.0 (Elem-middle vs post t) in
      elim (Bool-cases (ready sig current now v st)) [
        | inl r ↦ ground (arith, eq_iff v.name t.name, n)
        | inr r ↦
            ground
              (arith, eq_iff v.name t.name, n, visits-after_ready vs post t u st h.1 (ground arith))
      ]

module _ {F : Type 0} ⦃fl : Float F⦄ where
  -- After an evaluation with samples, over triggers of different names, the counter of each trigger
  -- is 0 if the trigger fired, is its count with this sample if the loop visited it, and is what it
  -- was if the loop skipped it or ended before it.
  pub count-evaluate :
      (now : ℕ) (policy : AdaptivePolicy) (sig : Signals F) (st : State) (t : TriggerConfig)
      → eq_ℤ sig.sample_count (pos 0) ≡ false
      → UniqueNames policy.spec.triggers
      → Elem t policy.spec.triggers
      → count (evaluate now policy sig st).1 t.name
        ≡ count_after sig policy.spec.active_profile now t policy.spec.triggers st
  unfolding evaluate
  count-evaluate now policy sig st t sampled unique m =
      rw sampled
        (guarded_count sig policy.spec.active_profile now t policy.spec.triggers _ st unique m)

  -- When a trigger before it is ready, a trigger's counter stays what it was, whatever the signals
  -- say of its own condition.
  pub count-evaluate_after_ready :
      (now : ℕ) (policy : AdaptivePolicy) (sig : Signals F) (st : State)
      (pre post : List TriggerConfig) (t u : TriggerConfig)
      → eq_ℤ sig.sample_count (pos 0) ≡ false
      → policy.spec.triggers ≡ pre ++ t ∷ post
      → UniqueNames policy.spec.triggers
      → first_ready sig policy.spec.active_profile now pre st ≡ some u
      → count (evaluate now policy sig st).1 t.name ≡ count st t.name
  count-evaluate_after_ready now policy sig st pre post t u sampled split unique r =
      let m : Elem t policy.spec.triggers = rw split (Elem-middle pre post t) in
      rw (count-evaluate now policy sig st t sampled unique m) (
        rw split (
          rw (
            visits-after_ready sig policy.spec.active_profile now pre post t u st
              (rw split at unique) r)))
