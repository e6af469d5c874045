-- ===== src/Scraper/Parser/Lines.antt =====
-- The parser at a line that was printed as a sample: a name, labels in braces, a value.
use Prim.Native.Char.{Char, code}
use text.Mathlib.TextBridge.{of_list}
use shedpilot.Common.{
  ap, ◌≡◌, refl, Bool, true, false, none, some, [], ◌∷◌, ◌++◌, ℕ, nat_eq, arith, any,
}
use shedpilot.Common.Float.{Float}
use shedpilot.Scraper.Text.{
  Line, chars, split_first, split_last, trim_space, trim_left, trim_right, unless_blank, is_space,
}
use shedpilot.Scraper.Parser.{split_line, value_text, parse_prom_line}

-- Whether a character of the line has the code.
abbrev pub has : ℕ → Line → Bool
has n line = any (λ (c : Char). nat_eq (code c) n) line

abbrev pub has_space : Line → Bool
has_space line = any is_space line

-- name{labels} value
abbrev pub sample_line : Line → Line → Line → Line
sample_line name labels value = name ++ (chars "{" ++ (labels ++ (chars "} " ++ value)))

pub split_first-append :
    (n : ℕ) (before : Line) (c : Char) (rest : Line)
    → has n before ≡ false
    → nat_eq (code c) n ≡ true
    → split_first n (before ++ (c ∷ rest)) ≡ some (before, c ∷ rest)
split_first-append n [] c rest free here = rw here refl
split_first-append n (b ∷ before) c rest free here =
    let later : has n before ≡ false = ground arith in
    let other : nat_eq (code b) n ≡ false = ground arith in
    rw (other, split_first-append n before c rest later here) refl

split_first-none : (n : ℕ) (line : Line) → has n line ≡ false → split_first n line ≡ none
split_first-none n [] free = refl
split_first-none n (b ∷ line) free =
    let later : has n line ≡ false = ground arith in
    let other : nat_eq (code b) n ≡ false = ground arith in
    rw (other, split_first-none n line later) refl

split_last-none : (n : ℕ) (line : Line) → has n line ≡ false → split_last n line ≡ none
split_last-none n [] free = refl
split_last-none n (b ∷ line) free =
    let later : has n line ≡ false = ground arith in
    let other : nat_eq (code b) n ≡ false = ground arith in
    rw (split_last-none n line later, other) refl

split_last-append :
    (n : ℕ) (before : Line) (c : Char) (rest : Line)
    → has n rest ≡ false
    → nat_eq (code c) n ≡ true
    → split_last n (before ++ (c ∷ rest)) ≡ some (before ++ (c ∷ []), rest)
split_last-append n [] c rest free here = rw (split_last-none n rest free, here) refl
split_last-append n (b ∷ before) c rest free here =
    rw (split_last-append n before c rest free here) refl

trim_right-no_space : (line : Line) → has_space line ≡ false → trim_right line ≡ line
trim_right-no_space [] free = refl
trim_right-no_space (b ∷ []) free = let other : is_space b ≡ false = ground arith in rw other refl
trim_right-no_space (b ∷ c ∷ line) free =
    let later : has_space (c ∷ line) ≡ false = ground arith in
    ap (unless_blank b) (trim_right-no_space (c ∷ line) later)

trim_left-no_space : (line : Line) → has_space line ≡ false → trim_left line ≡ line
trim_left-no_space [] free = refl
trim_left-no_space (b ∷ line) free = let other : is_space b ≡ false = ground arith in rw other refl

trim_space-value :
    (value : Line) → has_space value ≡ false → trim_space (chars " " ++ value) ≡ value
trim_space-value [] free = refl
trim_space-value (v ∷ value) free =
    rw (trim_right-no_space (v ∷ value) free) (trim_left-no_space (v ∷ value) free)

has-no_space : (line : Line) → has_space line ≡ false → has 32 line ≡ false
has-no_space [] free = refl
has-no_space (b ∷ line) free = let rec = has-no_space line (ground arith) in ground arith

value_text-value :
    (value : Line) → has_space value ≡ false → value_text (chars " " ++ value) ≡ value
unfolding value_text
value_text-value value free =
    rw (trim_space-value value free, split_first-none 32 value (has-no_space value free)) refl

pub append_assoc : (xs ys zs : Line) → (xs ++ ys) ++ zs ≡ xs ++ (ys ++ zs)
append_assoc [] ys zs = refl
append_assoc (x ∷ xs) ys zs = ap (λ rest. x ∷ rest) (append_assoc xs ys zs)

abbrev brace : Char
brace = "{"

abbrev end_brace : Char
end_brace = "}"

split_line-sample_line :
    (name labels value : Line)
    → has 123 name ≡ false
    → has 125 value ≡ false
    → split_line (sample_line name labels value)
      ≡ some (name ++ (chars "{" ++ (labels ++ chars "}")), chars " " ++ value)
unfolding split_line
split_line-sample_line name labels value no_brace no_end =
    let first = split_first-append 123 name brace (labels ++ (chars "} " ++ value)) no_brace refl in
    let last =
      split_last-append 125 (chars "{" ++ labels) end_brace (chars " " ++ value) (rw no_end refl)
        refl in
    rw (first, last) refl

-- A sample that is printed with whatever labels, braces and spaces among them, is read with its name
-- and value: the name has no brace, the value no space and no brace, and it scans as a finite number.
module _ {F : Type 0} ⦃fl : Float F⦄ where
  pub parse_prom_line-sample_line :
      (name labels value : Line) (x : F)
      → has 123 name ≡ false
      → has 125 value ≡ false
      → has_space value ≡ false
      → fl.parse (of_list value) ≡ (x, true)
      → fl.is_finite x ≡ true
      → parse_prom_line (sample_line name labels value) ≡ some (trim_space name, x)
  unfolding parse_prom_line
  parse_prom_line-sample_line name labels value x no_brace no_end no_space scans finite =
      let split = split_line-sample_line name labels value no_brace no_end in
      let text = value_text-value value no_space in
      let first = split_first-append 123 name brace (labels ++ chars "}") no_brace refl in
      rw (split, text, scans, finite, first) refl
