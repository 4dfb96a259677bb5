-- ===== src/FlatMap/Erase.antt =====
-- `find`, `count` and `erase` of libcoro/include/galois/FlatMap.h.
use corograph.Base.{
  ℕ, ◌≡◌, refl, List, [], ◌∷◌, Option, none, some, ◌==◌, if◌then◌else◌, length, arith, Bool-cases,
  inl, inr, subst,
}
use corograph.FlatMap.{lower_bound, absent, find, count, erase}
use corograph.FlatMap.Steps.{erase_less, erase_same, erase_more}
use corograph.FlatMap.Spec.{
  lookup, Above, IsSorted, Above-less, lookup-Above, order, less, same, more,
}
use corograph.FlatMap.Lookup.{swap_tests}
use corograph.FlatMap.Emplace.{is_none}

gone_lem {ℓ} :
    {V : Type ℓ} (k j : ℕ) (r : Option V) → (k ≡ j → r ≡ none) → r ≡ (if k == j then none else r)
gone_lem k j r absent = elim (Bool-cases (k == j)) [
  | inl here ↦ rw here (absent (ground arith))
  | inr other ↦ rw other refl
]

gone_same {ℓ} :
    {V : Type ℓ} (key k j : ℕ) (a r : Option V)
    → key ≡ k
    → (k ≡ j → r ≡ none)
    → r ≡ (if k == j then none else (if key == j then a else r))
gone_same key k j a r e absent = elim (Bool-cases (k == j)) [
  | inl here ↦ rw here (absent (ground arith))
  | inr other ↦ rw (e, other) refl
]

module _ {ℓ} {V : Type ℓ} where
  erase-Above :
      (entries : List (ℕ × V)) (k low : ℕ) → Above low entries → Above low (erase entries k).0
  unfolding erase find lower_bound
  erase-Above [] k low above = tt
  erase-Above ((key, v) ∷ entries) k low above = elim (order key k) [
    | less lt ge ne _ ↦
        rw (erase_less key k v entries v lt) (above.0, erase-Above entries k low above.1)
    | same ge le eq e ↦ rw (erase_same key k v entries v ge le) above.1
    | more ge lt ne gt ↦ rw (erase_more key k v entries v ge lt) above
  ]

  -- `erase` of a key.
  lookup-erase :
      (entries : List (ℕ × V)) (k j : ℕ)
      → IsSorted entries
      → lookup (erase entries k).0 j ≡ (if k == j then none else lookup entries j)
  unfolding erase find lower_bound
  lookup-erase [] k j s = gone_lem k j none (λ _. refl)
  lookup-erase ((key, v) ∷ entries) k j s = elim (order key k) [
    | less lt ge ne _ ↦
        rw (erase_less key k v entries v lt, lookup-erase entries k j s.1)
          (swap_tests key k j (some v) none (lookup entries j) ne)
    | same ge le eq e ↦ rw (erase_same key k v entries v ge le) (
        gone_same key k j (some v) (lookup entries j) e (λ at_k.
          subst (λ t. lookup entries t ≡ none) at_k
            (lookup-Above k entries (subst (λ t. Above t entries) e s.0))))
    | more ge lt ne gt ↦ rw (erase_more key k v entries v ge lt) (
        gone_lem k j (lookup ((key, v) ∷ entries) j) (λ at_k.
          subst (λ t. lookup ((key, v) ∷ entries) t ≡ none) at_k
            (lookup-Above k ((key, v) ∷ entries) (gt, Above-less k key entries gt s.0))))
  ]

  erase-count :
      (entries : List (ℕ × V)) (k : ℕ)
      → IsSorted entries
      → (erase entries k).1 ≡ (if is_none (lookup entries k) then 0 else 1)
  unfolding erase find lower_bound
  erase-count [] k s = refl
  erase-count ((key, v) ∷ entries) k s = elim (order key k) [
    | less lt ge ne _ ↦ rw (erase_less key k v entries v lt, ne) (erase-count entries k s.1)
    | same ge le eq e ↦ rw (erase_same key k v entries v ge le, eq) refl
    | more ge lt ne gt ↦
        rw
          (
            erase_more key k v entries v ge lt,
            ne,
            lookup-Above k entries (Above-less k key entries gt s.0),
          )
          refl
  ]

  erase-IsSorted :
      (entries : List (ℕ × V)) (k : ℕ) → IsSorted entries → IsSorted (erase entries k).0
  unfolding erase find lower_bound
  erase-IsSorted [] k s = tt
  erase-IsSorted ((key, v) ∷ entries) k s = elim (order key k) [
    | less lt ge ne below ↦
        rw (erase_less key k v entries v lt)
          (erase-Above entries k key s.0, erase-IsSorted entries k s.1)
    | same ge le eq e ↦ rw (erase_same key k v entries v ge le) s.1
    | more ge lt ne gt ↦ rw (erase_more key k v entries v ge lt) s
  ]

  -- `count` says whether the key is there; it is the number of entries that `erase` erases.
  count-erase : (entries : List (ℕ × V)) (k : ℕ) → count entries k ≡ (erase entries k).1
  unfolding count erase
  count-erase entries k = elim (Bool-cases (find entries k == length entries)) [
    | inl gone ↦ rw gone refl
    | inr held ↦ rw held refl
  ]

  -- On a sorted map, `erase` of a key takes its entry away and no other, its result is the number of
  -- entries it erased, which `count` gave before, and the map stays sorted.
  pub erase_refines :
      (entries : List (ℕ × V)) (k : ℕ)
      → IsSorted entries
      → IsSorted (erase entries k).0
        × ((erase entries k).1 ≡ (if is_none (lookup entries k) then 0 else 1))
        × (count entries k ≡ (erase entries k).1)
        × ((j : ℕ) → lookup (erase entries k).0 j ≡ (if k == j then none else lookup entries j))
  erase_refines entries k s = (
    erase-IsSorted entries k s,
    erase-count entries k s,
    count-erase entries k,
    λ j. lookup-erase entries k j s,
  )
