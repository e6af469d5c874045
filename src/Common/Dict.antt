-- ===== src/Common/Dict.antt =====
-- Go's maps with string keys, as association lists. Every operation is written out; the order of
-- the entries is the order in which a `range` of the model visits them.
use mathlib.Core.Path.{◌≡◌, refl}
use mathlib.Core.Bool.{Bool, true, false}
use mathlib.Core.Option.{Option, none, some}
use mathlib.Core.List.{List, [], ◌∷◌}
use native.Mathlib.Omega.{arith}
use text.Mathlib.TextEquality.{eq_iff}
use Prim.Native.String.{String}
use shedpilot.Common.Tests.{◌==◌, if◌then◌else◌}

abbrev pub Dict {ℓ} : Type ℓ → Type ℓ
Dict V = List (String × V)

module _ {ℓ} {V : Type ℓ} where
  -- delete(m, key)
  unfoldable pub erase : String → Dict V → Dict V
  erase key [] = []
  erase key (entry ∷ entries) =
      let kept = erase key entries in if entry.0 == key then kept else entry ∷ kept

  -- value, ok := m[key]
  unfoldable pub lookup : String → Dict V → Option V
  lookup key [] = none
  lookup key (entry ∷ entries) =
      let later = lookup key entries in if entry.0 == key then some entry.1 else later

  -- m[key] = value, in the place of the entry where there is one
  unfoldable pub insert : String → V → Dict V → Dict V
  insert key value [] = (key, value) ∷ []
  insert key value (entry ∷ entries) =
      let deeper = insert key value entries in
      if entry.0 == key then (key, value) ∷ entries else entry ∷ deeper

  pub lookup-erase :
      (key other : String) (entries : Dict V)
      → lookup other (erase key entries) ≡ (if key == other then none else lookup other entries)
  unfolding lookup erase
  lookup-erase key other [] = ground arith
  lookup-erase key other (entry ∷ entries) =
      let same = eq_iff entry.0 key in
      let hit = eq_iff entry.0 other in
      ground (arith, same, hit, eq_iff key other, lookup-erase key other entries)

  pub lookup-insert :
      (key other : String) (value : V) (entries : Dict V)
      → lookup other (insert key value entries)
        ≡ (if key == other then some value else lookup other entries)
  unfolding lookup insert
  lookup-insert key other value [] = refl
  lookup-insert key other value (entry ∷ entries) =
      let same = eq_iff entry.0 key in
      let hit = eq_iff entry.0 other in
      ground (arith, same, hit, eq_iff key other, lookup-insert key other value entries)

pub ruleset dict_laws = (lookup-erase, lookup-insert)

-- Whether a lookup found something: the `ok` of `v, ok := m[k]`.
abbrev pub is_some {ℓ} : {V : Type ℓ} → Option V → Bool
is_some none = false
is_some (some v) = true
