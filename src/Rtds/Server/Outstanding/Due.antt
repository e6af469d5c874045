-- ===== src/Rtds/Server/Outstanding/Due.antt =====
-- A value that is due to a sidecar: outstanding for it, or held by it.
use shedpilot.Common.{
  ap, subst, ◌≡◌, sym, refl, Bool, true, false, Option, some, List, [], ◌∷◌, ◌++◌, arith, All,
  is_nonempty, if◌then◌else◌,
}
use mathlib.Core.List.{append-nil}
use shedpilot.Rtds.Server.{Values}

-- What is due to a sidecar is a value: it is outstanding, alone, or else it is held.
abbrev pub Due : Values → Option Values → List Values → Type 0
Due v held [] = held ≡ some v
Due v held (x ∷ xs) = (x ≡ v) × All (λ (y : Values). y ≡ v) xs

Due-of_All :
    (v : Values) (held : Option Values) (xs : List Values)
    → All (λ (y : Values). y ≡ v) xs
    → held ≡ some v
    → Due v held xs
Due-of_All v held [] each now = now
Due-of_All v held (x ∷ xs) each now = each

All-taken :
    (v x : Values) (xs ys : List Values)
    → All (λ (y : Values). y ≡ v) (xs ++ x ∷ ys)
    → (x ≡ v) × All (λ (y : Values). y ≡ v) (xs ++ ys)
All-taken v x [] ys each = each
All-taken v x (z ∷ xs) ys each = let rec = All-taken v x xs ys each.1 in (rec.0, (each.0, rec.1))

Due-taken :
    (v x : Values) (held : Option Values) (xs ys : List Values)
    → Due v held (xs ++ x ∷ ys)
    → Due v (some x) (xs ++ ys)
Due-taken v x held [] ys due = Due-of_All v (some x) ys due.1 (ap some due.0)
Due-taken v x held (z ∷ xs) ys due = let rec = All-taken v x xs ys due.1 in (due.0, rec.1)

pub Due-alone :
    (v : Values) (held : Option Values) (xs ys : List Values)
    → is_nonempty ys ≡ false
    → Due v held xs
    → Due v held (xs ++ ys)
Due-alone v held xs [] alone due = subst (Due v held) (sym (append-nil xs)) due
Due-alone v held xs (y ∷ ys) alone due = ground arith

pub Due-arrive :
    (v : Values) (one : Bool) (x : Values) (before : Option Values) (xs ys all rest : List Values)
    → all ≡ (if one then xs ++ x ∷ ys else rest)
    → (one ≡ true → rest ≡ xs ++ ys)
    → Due v before all
    → Due v (if one then some x else before) rest
Due-arrive v true x before xs ys all rest split only due =
    subst (Due v (some x)) (sym (only refl))
      (Due-taken v x before xs ys (subst (Due v before) split due))
Due-arrive v false x before xs ys all rest split only due = subst (Due v before) split due
