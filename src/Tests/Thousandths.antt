-- ===== src/Tests/Thousandths.antt =====
-- An arithmetic that meets the interface of float64: signed thousandths.
use Prim.Native.Char.{code}
use shedpilot.Common.{
  ℕ, zero, suc, ◌+◌, ◌-◌, ◌*◌, ◌/◌, ◌^◌, String, ◌≡◌, Bool, true, false, ◌&&◌, Option, none, some,
  ℤ, pos, pos_part, neg_part, sub_ℕ, ltb_ℤ, leb_ℤ, leb, nat_eq, arith, if◌then◌else◌,
}
use shedpilot.Common.Float.{Float}

-- The digits of a text, up to three of them behind the point: the number, and the places still to fill.
digits : ℕ → Option ℕ → String → Option (ℕ × Option ℕ)
digits n places String.[] = some (n, places)
digits n places (String.◌∷◌ ch rest) =
    let c = code ch in
    let shift : Option ℕ = elim places [ none ↦ none | some k ↦ some (k - 1) ] in
    let whole = digits (n * 10 + (c - 48)) shift rest in
    let point = digits n (some 3) rest in
    if leb 48 c && leb c 57 then whole else if nat_eq c 46 then point else none

thousandths_of : Option (ℕ × Option ℕ) → Option ℤ
thousandths_of none = none
thousandths_of (some (n, none)) = some (pos (n * 1000))
thousandths_of (some (n, some zero)) = some (pos n)
thousandths_of (some (n, some (suc zero))) = some (pos (n * 10))
thousandths_of (some (n, some (suc (suc zero)))) = some (pos (n * 100))
thousandths_of (some (n, some (suc (suc (suc k))))) = some (pos (n * 1000))

unfoldable pub read : String → Option ℤ
unfolding digits thousandths_of
read s = thousandths_of (digits 0 none s)

unfoldable pub parsed : Option ℤ → ℤ × Bool
parsed none = (pos 0, false)
parsed (some x) = (x, true)

pub lt_irrefl_lem : (a : ℤ) → ltb_ℤ a a ≡ false
lt_irrefl_lem a = ground arith

pub lt_trans_lem : (a b c : ℤ) → ltb_ℤ a b ≡ true → ltb_ℤ b c ≡ true → ltb_ℤ a c ≡ true
lt_trans_lem a b c h k = ground arith

pub le_lt_lem : (a b : ℤ) → leb_ℤ a b ≡ true → ltb_ℤ b a ≡ false
le_lt_lem a b h = ground arith

instance abbrev pub thousandths : Float ℤ
thousandths = record {
  lt = ltb_ℤ;
  le = leb_ℤ;
  add = λ a b. sub_ℕ (pos_part a + pos_part b) (neg_part a + neg_part b);
  sub = λ a b. sub_ℕ (pos_part a + neg_part b) (neg_part a + pos_part b);
  mul = λ a b.
      sub_ℕ ((pos_part a * pos_part b + neg_part a * neg_part b) / 1000)
        ((pos_part a * neg_part b + neg_part a * pos_part b) / 1000);
  div = λ a b.
      sub_ℕ (pos_part a * 1000 / pos_part b + neg_part a * 1000 / neg_part b)
        (pos_part a * 1000 / neg_part b + neg_part a * 1000 / pos_part b);
  of_int = λ n. sub_ℕ (pos_part n * 1000) (neg_part n * 1000);
  constant = λ m k. pos (m * 1000 / 10 ^ k);
  to_int = λ x. sub_ℕ (pos_part x / 1000) (neg_part x / 1000);
  parse = λ s. parsed (read s);
  is_finite = λ x. true;
  scan = read;
  fixed = λ k x. "x";
  show = λ x. "x";
  decimal = λ n. "n";
  lt_irrefl = λ a. lt_irrefl_lem a;
  lt_trans = λ a b c. lt_trans_lem a b c;
  le_lt = λ a b. le_lt_lem a b;
}
