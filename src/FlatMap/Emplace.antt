-- ===== src/FlatMap/Emplace.antt =====
-- `emplace` and `insert` of libcoro/include/galois/FlatMap.h.
use corograph.Base.{
  ℕ, ◌≡◌, refl, ◌<◌, Bool, true, false, List, [], ◌∷◌, Option, none, some, ◌==◌, if◌then◌else◌,
}
use corograph.FlatMap.{lower_bound, emplace}
use corograph.FlatMap.Steps.{emplace_less, emplace_same, emplace_more}
use corograph.FlatMap.Spec.{
  lookup, Above, IsSorted, Above-less, lookup-Above, order, less, same, more,
}
use corograph.FlatMap.Lookup.{swap_tests, shadow}

-- The value that stays when a new one must not replace it.
abbrev pub keep {ℓ} : {V : Type ℓ} → Option V → V → Option V
keep none w = some w
keep (some v) w = some v

abbrev pub is_none {ℓ} : {V : Type ℓ} → Option V → Bool
is_none none = true
is_none (some v) = false

module _ {ℓ} {V : Type ℓ} where
  emplace-Above :
      (w : V) (entries : List (ℕ × V)) (k low : ℕ)
      → low < k
      → Above low entries
      → Above low (emplace entries (k, w)).0
  unfolding emplace lower_bound
  emplace-Above w [] k low below above = (below, tt)
  emplace-Above w ((key, v) ∷ entries) k low below above = elim (order key k) [
    | less lt ge ne _ ↦
        rw (emplace_less key k v entries w lt)
          (above.0, emplace-Above w entries k low below above.1)
    | same ge le eq e ↦ rw (emplace_same key k v entries w ge le) above
    | more ge lt ne gt ↦ rw (emplace_more key k v entries w ge lt) (below, above)
  ]

  -- `emplace` and `insert` leave the value that a key has.
  lookup-emplace :
      (w : V) (entries : List (ℕ × V)) (k j : ℕ)
      → IsSorted entries
      → lookup (emplace entries (k, w)).0 j
        ≡ (if k == j then keep (lookup entries k) w else lookup entries j)
  unfolding emplace lower_bound
  lookup-emplace w [] k j s = refl
  lookup-emplace w ((key, v) ∷ entries) k j s = elim (order key k) [
    | less lt ge ne _ ↦
        rw (emplace_less key k v entries w lt, lookup-emplace w entries k j s.1, ne)
          (swap_tests key k j (some v) (keep (lookup entries k) w) (lookup entries j) ne)
    | same ge le eq e ↦
        rw (emplace_same key k v entries w ge le, eq)
          (shadow key k j (some v) (some v) (lookup entries j) e)
    | more ge lt ne gt ↦
        rw
          (
            emplace_more key k v entries w ge lt,
            ne,
            lookup-Above k entries (Above-less k key entries gt s.0),
          )
          refl
  ]

  emplace-flag :
      (w : V) (entries : List (ℕ × V)) (k : ℕ)
      → IsSorted entries
      → (emplace entries (k, w)).2 ≡ is_none (lookup entries k)
  unfolding emplace lower_bound
  emplace-flag w [] k s = refl
  emplace-flag w ((key, v) ∷ entries) k s = elim (order key k) [
    | less lt ge ne _ ↦ rw (emplace_less key k v entries w lt, ne) (emplace-flag w entries k s.1)
    | same ge le eq e ↦ rw (emplace_same key k v entries w ge le, eq) refl
    | more ge lt ne gt ↦
        rw
          (
            emplace_more key k v entries w ge lt,
            ne,
            lookup-Above k entries (Above-less k key entries gt s.0),
          )
          refl
  ]

  emplace-IsSorted :
      (w : V) (entries : List (ℕ × V)) (k : ℕ)
      → IsSorted entries
      → IsSorted (emplace entries (k, w)).0
  unfolding emplace lower_bound
  emplace-IsSorted w [] k s = (tt, tt)
  emplace-IsSorted w ((key, v) ∷ entries) k s = elim (order key k) [
    | less lt ge ne below ↦
        rw (emplace_less key k v entries w lt)
          (emplace-Above w entries k key below s.0, emplace-IsSorted w entries k s.1)
    | same ge le eq e ↦ rw (emplace_same key k v entries w ge le) s
    | more ge lt ne gt ↦
        rw (emplace_more key k v entries w ge lt) ((gt, Above-less k key entries gt s.0), s)
  ]

  -- On a sorted map, `emplace` gives a key without a value the new one and keeps the value of a key
  -- that has one, changes no other key, says whether the entry is new, and leaves the map sorted.
  pub emplace_refines :
      (w : V) (entries : List (ℕ × V)) (k : ℕ)
      → IsSorted entries
      → IsSorted (emplace entries (k, w)).0
        × ((emplace entries (k, w)).2 ≡ is_none (lookup entries k))
        × ((j : ℕ)
            → lookup (emplace entries (k, w)).0 j
              ≡ (if k == j then keep (lookup entries k) w else lookup entries j))
  emplace_refines w entries k s = (
    emplace-IsSorted w entries k s,
    emplace-flag w entries k s,
    λ j. lookup-emplace w entries k j s,
  )
