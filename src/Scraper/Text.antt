-- ===== src/Scraper/Text.antt =====
-- internal/signal/scraper.go: what the parser of the metrics takes of Go's package strings, on lists of
-- characters. An index into a text is written as the parts before and from it.
use Prim.Native.Char.{Char, code}
use shedpilot.Common.{
  String, Bool, true, false, Option, none, some, List, [], ◌∷◌, ℕ, nat_eq, leb, ◌&&◌, ◌||◌,
  if◌then◌else◌,
}

abbrev pub Line : Type 0
Line = List Char

abbrev pub chars : String → Line
chars String.[] = []
chars (String.◌∷◌ c s) = c ∷ chars s

abbrev pub with_head : Char → Option (Line × Line) → Option (Line × Line)
with_head c none = none
with_head c (some (before, rest)) = some (c ∷ before, rest)

-- The parts before the first character with a code, and from it on: strings.Index of a character.
abbrev pub split_first : ℕ → Line → Option (Line × Line)
split_first n [] = none
split_first n (c ∷ cs) =
    let later = split_first n cs in
    if nat_eq (code c) n then some ([], c ∷ cs) else with_head c later

abbrev or_here : Bool → Char → Line → Option (Line × Line) → Option (Line × Line)
or_here true c cs none = some (c ∷ [], cs)
or_here false c cs none = none
or_here here c cs (some (before, rest)) = some (c ∷ before, rest)

-- The parts up to the last character with a code, and after it: strings.LastIndex of a character.
abbrev pub split_last : ℕ → Line → Option (Line × Line)
split_last n [] = none
split_last n (c ∷ cs) = or_here (nat_eq (code c) n) c cs (split_last n cs)

-- strings.HasPrefix(line, prefix)
abbrev pub has_prefix : Line → Line → Bool
has_prefix line [] = true
has_prefix [] (p ∷ ps) = false
has_prefix (c ∷ cs) (p ∷ ps) = nat_eq (code c) (code p) && has_prefix cs ps

abbrev pub drop_as : Line → Line → Line
drop_as [] line = line
drop_as (p ∷ ps) [] = []
drop_as (p ∷ ps) (c ∷ cs) = drop_as ps cs

-- What follows the first occurrence of a text that is not empty: strings.Index and the slice behind it.
abbrev pub after_first : Line → Line → Option Line
after_first search [] = none
after_first search (c ∷ cs) =
    let later = after_first search cs in
    if has_prefix (c ∷ cs) search then some (drop_as search (c ∷ cs)) else later

-- unicode.IsSpace
abbrev pub is_space : Char → Bool
is_space c =
    let n = code c in
    (leb 9 n && leb n 13)
    || nat_eq n 32
    || nat_eq n 133
    || nat_eq n 160
    || nat_eq n 5760
    || (leb 8192 n && leb n 8202)
    || nat_eq n 8232
    || nat_eq n 8233
    || nat_eq n 8239
    || nat_eq n 8287
    || nat_eq n 12288

abbrev pub trim_left : Line → Line
trim_left [] = []
trim_left (c ∷ cs) = let rest = trim_left cs in if is_space c then rest else c ∷ cs

abbrev pub unless_blank : Char → Line → Line
unless_blank c [] = if is_space c then [] else c ∷ []
unless_blank c (d ∷ ds) = c ∷ d ∷ ds

abbrev pub trim_right : Line → Line
trim_right [] = []
trim_right (c ∷ cs) = unless_blank c (trim_right cs)

-- strings.TrimSpace
abbrev pub trim_space : Line → Line
trim_space line = trim_left (trim_right line)

abbrev pub cons_line : Char → List Line → List Line
cons_line c [] = (c ∷ []) ∷ []
cons_line c (line ∷ lines) = (c ∷ line) ∷ lines

-- strings.Split(text, "\n")
abbrev pub lines_of : Line → List Line
lines_of [] = [] ∷ []
lines_of (c ∷ cs) =
    let rest = lines_of cs in if nat_eq (code c) 10 then [] ∷ rest else cons_line c rest
