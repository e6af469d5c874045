-- ===== src/Scraper/Parser/Labels.antt =====
-- The parser at a label of a printed sample.
use mathlib.Core.Bool.{false≢true}
use Prim.Native.Char.{Char, code}
use shedpilot.Common.{
  String, ap, sym, ◌∙◌, ◌≡◌, refl, true, false, Option, none, some, [], ◌∷◌, ◌++◌, ◌-◌, ◌≤◌, nat_eq,
  arith, Bool-cases, inl, inr, is_nonempty, ◌&&◌, length, length-append,
}
use shedpilot.Scraper.Text.{Line, chars, has_prefix, after_first, drop_as}
use shedpilot.Scraper.Parser.{extract_label}
use shedpilot.Scraper.Parser.Lines.{has, append_assoc, split_first-append}

has_prefix_self : (p rest : Line) → has_prefix (p ++ rest) p ≡ true
has_prefix_self [] rest = refl
has_prefix_self (c ∷ p) rest = let rec = has_prefix_self p rest in ground arith

drop_as_self : (p rest : Line) → drop_as p (p ++ rest) ≡ rest
drop_as_self [] rest = refl
drop_as_self (c ∷ p) rest = drop_as_self p rest

has_prefix-append :
    (line rest p : Line) → length p ≤ length line → has_prefix (line ++ rest) p ≡ has_prefix line p
has_prefix-append line rest [] h = refl
has_prefix-append [] rest (c ∷ p) h = absurd (omega (arith, h))
has_prefix-append (d ∷ line) rest (c ∷ p) h =
    ap (λ b. nat_eq (code d) (code c) && b) (has_prefix-append line rest p (omega (arith, h)))

length-drop_as : (p line : Line) → length (drop_as p line) ≡ length line - length p
length-drop_as [] line = omega arith
length-drop_as (c ∷ p) [] = omega arith
length-drop_as (c ∷ p) (d ∷ line) = let rec = length-drop_as p line in omega (arith, rec)

abbrev rest_of : Option Line → Line
rest_of none = []
rest_of (some rest) = rest

-- Where the first occurrence of a text is known to end, the rest of the line follows.
after_first-append :
    (c : Char) (p pre rest : Line)
    → after_first (c ∷ p) (pre ++ (c ∷ p)) ≡ some []
    → after_first (c ∷ p) (pre ++ ((c ∷ p) ++ rest)) ≡ some rest
after_first-append c p [] rest first =
    rw (has_prefix_self (c ∷ p) rest) (ap some (drop_as_self (c ∷ p) rest))
after_first-append c p (d ∷ pre) rest first =
    let whole = (d ∷ pre) ++ (c ∷ p) in
    let long = length-append pre (c ∷ p) in
    elim (Bool-cases (has_prefix whole (c ∷ p))) [
      | inl e ↦
          let none_left = ap (λ o. length (rest_of o)) (rw e at first) in
          let left = length-drop_as p (pre ++ (c ∷ p)) in
          absurd (omega (arith, none_left, left, long))
      | inr e ↦
          let same = has_prefix-append whole rest (c ∷ p) (omega (arith, long)) in
          let apart = append_assoc (d ∷ pre) (c ∷ p) rest in
          let missed : has_prefix ((d ∷ pre) ++ ((c ∷ p) ++ rest)) (c ∷ p) ≡ false =
            ap (λ (l : Line). has_prefix l (c ∷ p)) (sym apart) ∙ same ∙ e in
          rw missed (after_first-append c p pre rest (rw e at first))
    ]

after_first-found :
    (p pre rest : Line)
    → is_nonempty p ≡ true
    → after_first p (pre ++ p) ≡ some []
    → after_first p (pre ++ (p ++ rest)) ≡ some rest
after_first-found [] pre rest long first = absurd (false≢true long)
after_first-found (c ∷ p) pre rest long first = after_first-append c p pre rest first

nonempty-append : (xs ys : Line) (c : Char) → is_nonempty (xs ++ (c ∷ ys)) ≡ true
nonempty-append [] ys c = refl
nonempty-append (x ∷ xs) ys c = refl

abbrev quote : Char
quote = "\""

-- The value of a label is what stands between its quotes, at the first place where its name and "=" stand.
pub extract_label-append :
    (pre value post : Line) (key : String)
    → after_first (chars key ++ chars "=\"") (pre ++ (chars key ++ chars "=\"")) ≡ some []
    → has 34 value ≡ false
    → extract_label (pre ++ ((chars key ++ chars "=\"") ++ (value ++ (chars "\"" ++ post)))) key
      ≡ value
unfolding extract_label
extract_label-append pre value post key first closed =
    let found =
      after_first-found (chars key ++ chars "=\"") pre (value ++ (chars "\"" ++ post))
        (nonempty-append (chars key) (chars "\"") "=") first in
    rw (found, split_first-append 34 value quote post closed refl) refl
