-- ===== src/Common/Float.antt =====
-- float64, with the conversions of strconv and fmt that the program uses, as an interface.
use Prim.Native.Nat.{ℕ}
use Prim.Native.String.{String}
use mathlib.Core.Path.{◌≡◌}
use mathlib.Core.Bool.{Bool, true, false}
use mathlib.Core.Option.{Option}
use shedpilot.Common.Int.{ℤ}

pub record Float (F : Type 0) : Type 0 where
  -- a < b, false where one side is not a number
  pub lt : F → F → Bool
  -- a <= b, likewise
  pub le : F → F → Bool
  pub add : F → F → F
  pub sub : F → F → F
  pub mul : F → F → F
  pub div : F → F → F
  -- float64(n), and the constants of the source
  pub of_int : ℤ → F
  -- a decimal constant m / 10^k
  pub constant : ℕ → ℕ → F
  -- int64(x)
  pub to_int : F → ℤ
  -- strconv.ParseFloat(s, 64): the value, and whether there was no error
  pub parse : String → F × Bool
  -- neither NaN nor an infinity
  pub is_finite : F → Bool
  -- fmt.Sscanf(s, "%f", &x): none on an error
  pub scan : String → Option F
  -- fmt.Sprintf("%.kf", x)
  pub fixed : ℕ → F → String
  -- fmt.Sprintf("%v", x)
  pub show : F → String
  -- fmt.Sprintf("%d", n)
  pub decimal : ℤ → String
  -- Comparison is irreflexive and transitive, and <= excludes the reverse < (IEEE 754).
  pub lt_irrefl : (a : F) → lt a a ≡ false
  pub lt_trans : (a b c : F) → lt a b ≡ true → lt b c ≡ true → lt a c ≡ true
  pub le_lt : (a b : F) → le a b ≡ true → lt b a ≡ false
