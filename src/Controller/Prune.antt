-- ===== src/Controller/Prune.antt =====
-- internal/controller/adaptivepolicy_controller.go: pruneOrphanedResources.
use shedpilot.Common.{
  String, eq_iff, ap, ◌≡◌, refl, Bool, List, [], ◌∷◌, arith, Bool-cases, inl, inr, ◌==◌, ◌<>◌,
  if◌then◌else◌, any,
}
use shedpilot.Common.Dict.{Dict, lookup, insert, is_some, lookup-insert}
use shedpilot.Api.{ManagedResource}

-- Kind and name; resources of one policy share a namespace.
abbrev pub key_of : ManagedResource → String
key_of m = m.kind <> "/" <> m.name

unfoldable pub active_keys : List ManagedResource → Dict {0} Unit
active_keys [] = []
active_keys (m ∷ rest) = insert (key_of m) tt (active_keys rest)

-- The resources that are deleted, in the order of the status.
unfoldable pub orphans : List ManagedResource → List ManagedResource → List ManagedResource
orphans current [] = []
orphans current (prev ∷ rest) =
    let later = orphans current rest in
    if is_some (lookup (key_of prev) (active_keys current)) then later else prev ∷ later

abbrev pub is_rendered : String → List ManagedResource → Bool
is_rendered key = any (λ m. key_of m == key)

-- The resources with a key, in order.
abbrev pub with_key : String → List ManagedResource → List ManagedResource
with_key key [] = []
with_key key (m ∷ ms) = if key_of m == key then m ∷ with_key key ms else with_key key ms

is_some-active_keys :
    (key : String) (current : List ManagedResource)
    → is_some (lookup key (active_keys current)) ≡ is_rendered key current
unfolding active_keys lookup
is_some-active_keys key [] = refl
is_some-active_keys key (m ∷ rest) =
    let rec = is_some-active_keys key rest in
    let put = lookup-insert (key_of m) key tt (active_keys rest) in
    elim (Bool-cases (key_of m == key)) [ inl e ↦ rw (put, e) refl | inr e ↦ rw (put, e) rec ]

-- Of the resources with one kind and name, those of the status are all deleted where none is
-- rendered now, and none is deleted otherwise.
pub with_key-orphans :
    (key : String) (current previous : List ManagedResource)
    → with_key key (orphans current previous)
      ≡ (if is_rendered key current then [] else with_key key previous)
unfolding orphans
with_key-orphans key current [] = ground arith
with_key-orphans key current (prev ∷ rest) =
    let rec = with_key-orphans key current rest in
    let here = is_some-active_keys (key_of prev) current in
    let same = eq_iff (key_of prev) key in
    elim (Bool-cases (key_of prev == key)) [
      | inl k ↦
          let at = ap (λ x. is_rendered x current) (same.0 k) in
          elim (Bool-cases (is_rendered key current)) [
            | inl e ↦ rw (here, at, e) (rw e at rec)
            | inr e ↦ rw (here, at, e, k) (ap (λ ms. prev ∷ ms) (rw e at rec))
          ]
      | inr k ↦ elim (Bool-cases (is_rendered (key_of prev) current)) [
        | inl e ↦ rw (here, e, k) rec
        | inr e ↦ rw (here, e, k) rec
      ]
    ]
