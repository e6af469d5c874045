-- ===== src/Rtds/Server/Keys.antt =====
-- Maps in which no key stands twice, as Go's maps are.
use shedpilot.Common.{
  String, ◌≡◌, ◌∙◌, subst, refl, false, none, some, [], ◌∷◌, arith, eq_iff, Bool-cases, inl, inr,
  ◌==◌, if◌then◌else◌,
}
use shedpilot.Common.Dict.{Dict, lookup, insert, lookup-insert}

abbrev pub UniqueKeys {ℓ} : {V : Type ℓ} → Dict V → Type ℓ
UniqueKeys [] = Unit
UniqueKeys (entry ∷ rest) = (lookup entry.0 rest ≡ none) × UniqueKeys rest

-- A test of texts the other way round.
flip_false : (a b : String) → (b == a) ≡ false → (a == b) ≡ false
flip_false a b e = let i = eq_iff a b in let j = eq_iff b a in ground arith

ite-false {ℓ} :
    {A : Type ℓ} (a b : String) → (b == a) ≡ false → (x y : A) → (if a == b then x else y) ≡ y
ite-false a b e x y = rw (flip_false a b e)

pub insert-UniqueKeys {ℓ} :
    {V : Type ℓ} (key : String) (value : V) (m : Dict V)
    → UniqueKeys m
    → UniqueKeys (insert key value m)
unfolding insert lookup
insert-UniqueKeys key value [] u = (refl, tt)
insert-UniqueKeys key value (entry ∷ rest) u =
    let same = eq_iff entry.0 key in
    let other = lookup-insert key entry.0 value rest in
    let rec = insert-UniqueKeys key value rest u.1 in
    let first = u.0 in
    elim (Bool-cases (entry.0 == key)) [
      | inl e ↦ rw e (subst (λ k. lookup k rest ≡ none) (same.0 e) u.0, u.1)
      | inr e ↦
          rw e (other ∙ ite-false key entry.0 e (some value) (lookup entry.0 rest) ∙ first, rec)
    ]
