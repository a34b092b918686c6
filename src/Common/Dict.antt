-- ===== src/Common/Dict.antt =====
-- `base::hash_map` with string keys as an association list, and `base::hash_set` of strings.
use mathlib.Core.Path.{◌≡◌, refl, subst}
use mathlib.Core.Logic.{inl, inr}
use mathlib.Core.Bool.{Bool, true, false, ◌||◌}
use mathlib.Core.Option.{Option, none, some}
use mathlib.Core.List.{List, [], ◌∷◌}
use native.Mathlib.Omega.{arith}
use seaturtle.Common.Tests.{Bool-cases, if◌then◌else◌}
use seaturtle.Common.Text.{Bytes, bytes_eq, bytes_eq_iff}

module _ {ℓ} {Value : Type ℓ} where
  -- `m[key] = x`, where a slot that is there keeps its key
  unfoldable pub insert : Bytes → Value → List (Bytes × Value) → List (Bytes × Value)
  insert key x [] = (key, x) ∷ []
  insert key x (slot ∷ slots) =
      if bytes_eq slot.0 key then (slot.0, x) ∷ slots else slot ∷ insert key x slots

  -- `m.find(key)`
  unfoldable pub lookup : Bytes → List (Bytes × Value) → Option Value
  lookup key [] = none
  lookup key (slot ∷ slots) = if bytes_eq slot.0 key then some slot.1 else lookup key slots

  pub lookup-insert :
      (key other : Bytes) (x : Value) (slots : List (Bytes × Value))
      → lookup other (insert key x slots)
        ≡ (if bytes_eq key other then some x else lookup other slots)
  unfolding lookup insert
  lookup-insert key other x [] = refl
  lookup-insert key other x (slot ∷ slots) = ground (
    arith,
    bytes_eq_iff slot.0 other,
    bytes_eq_iff slot.0 key,
    bytes_eq_iff key other,
    lookup-insert key other x slots,
  )

unfoldable pub contains : Bytes → List Bytes → Bool
contains k [] = false
contains k (j ∷ s) = bytes_eq j k || contains k s

unfoldable pub set_insert : Bytes → List Bytes → List Bytes
unfolding contains
set_insert k s = if contains k s then s else k ∷ s

pub contains-set_insert :
    (k j : Bytes) (s : List Bytes) → contains j (set_insert k s) ≡ (bytes_eq k j || contains j s)
unfolding set_insert contains
contains-set_insert k j s = elim (Bool-cases (contains k s)) [
  | inl old ↦ rw old (elim (Bool-cases (bytes_eq k j)) [
    | inl same ↦ rw same (subst (λ x. contains x s ≡ true) ((bytes_eq_iff k j).0 same) old)
    | inr other ↦ rw other refl
  ])
  | inr new ↦ rw new refl
]
