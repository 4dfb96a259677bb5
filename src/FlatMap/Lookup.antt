-- ===== src/FlatMap/Lookup.antt =====
-- `operator[]` and `at` of libcoro/include/galois/FlatMap.h are those of a finite function.
use corograph.Base.{
  ℕ, ◌≡◌, refl, sym, ◌<◌, false, List, [], ◌∷◌, some, ◌==◌, if◌then◌else◌, arith, Bool-cases, inl,
  inr,
}
use corograph.FlatMap.{lower_bound, index, assign, at}
use corograph.FlatMap.Steps.{assign_less, assign_same, assign_more}
use corograph.FlatMap.Spec.{
  lookup, Above, IsSorted, Above-less, lookup-Above, order, less, same, more,
}

pub swap_tests {ℓ} :
    {A : Type ℓ} (key k j : ℕ) (a b c : A)
    → (key == k) ≡ false
    → (if key == j then a else (if k == j then b else c))
      ≡ (if k == j then b else (if key == j then a else c))
swap_tests key k j a b c ne = elim (Bool-cases (key == j)) [
  | inl first ↦ elim (Bool-cases (k == j)) [
    | inl second ↦ absurd (ground arith)
    | inr other ↦ rw (first, other) refl
  ]
  | inr not_first ↦ rw not_first refl
]

pub shadow {ℓ} :
    {A : Type ℓ} (key k j : ℕ) (a b c : A)
    → key ≡ k
    → (if key == j then a else c) ≡ (if k == j then a else (if key == j then b else c))
shadow key k j a b c e =
    rw e (elim (Bool-cases (k == j)) [ inl here ↦ rw here refl | inr other ↦ rw other refl ])

module _ {ℓ} {V : Type ℓ} where
  assign-Above :
      (default w : V) (entries : List (ℕ × V)) (k low : ℕ)
      → low < k
      → Above low entries
      → Above low (assign default entries k w)
  unfolding assign index lower_bound
  assign-Above default w [] k low below above = (below, tt)
  assign-Above default w ((key, v) ∷ entries) k low below above = elim (order key k) [
    | less lt ge ne _ ↦
        rw (assign_less key k v entries w lt default)
          (above.0, assign-Above default w entries k low below above.1)
    | same ge le eq e ↦ rw (assign_same key k v entries w ge le default) above
    | more ge lt ne gt ↦ rw (assign_more key k v entries w ge lt default) (below, above)
  ]

  pub at_lem : (entries : List (ℕ × V)) (k : ℕ) → IsSorted entries → at entries k ≡ lookup entries k
  unfolding at lower_bound
  at_lem [] k s = refl
  at_lem ((key, v) ∷ entries) k s = elim (order key k) [
    | less lt ge ne _ ↦ rw (lt, ne) (at_lem entries k s.1)
    | same ge le eq _ ↦ rw (ge, le, eq) refl
    | more ge lt ne gt ↦
        rw (ge, lt, ne) (sym (lookup-Above k entries (Above-less k key entries gt s.0)))
  ]

  -- `m[k] = w` changes the value of `k` alone.
  pub lookup-assign :
      (default w : V) (entries : List (ℕ × V)) (k j : ℕ)
      → IsSorted entries
      → lookup (assign default entries k w) j ≡ (if k == j then some w else lookup entries j)
  unfolding assign index lower_bound
  lookup-assign default w [] k j s = refl
  lookup-assign default w ((key, v) ∷ entries) k j s = elim (order key k) [
    | less lt ge ne _ ↦
        rw (assign_less key k v entries w lt default, lookup-assign default w entries k j s.1)
          (swap_tests key k j (some v) (some w) (lookup entries j) ne)
    | same ge le eq e ↦
        rw (assign_same key k v entries w ge le default)
          (shadow key k j (some w) (some v) (lookup entries j) e)
    | more ge lt ne gt ↦ rw (assign_more key k v entries w ge lt default) refl
  ]

  pub assign-IsSorted :
      (default w : V) (entries : List (ℕ × V)) (k : ℕ)
      → IsSorted entries
      → IsSorted (assign default entries k w)
  unfolding assign index lower_bound
  assign-IsSorted default w [] k s = (tt, tt)
  assign-IsSorted default w ((key, v) ∷ entries) k s = elim (order key k) [
    | less lt ge ne below ↦
        rw (assign_less key k v entries w lt default)
          (assign-Above default w entries k key below s.0, assign-IsSorted default w entries k s.1)
    | same ge le eq e ↦ rw (assign_same key k v entries w ge le default) s
    | more ge lt ne gt ↦
        rw (assign_more key k v entries w ge lt default) ((gt, Above-less k key entries gt s.0), s)
  ]

  -- On a sorted map, `at` gives the value of the key, or throws exactly if there is none; and after
  -- `m[k] = w` the map is sorted, `at` gives `w` for `k`, and what it gave for any other key.
  pub assign_refines :
      (default w : V) (entries : List (ℕ × V)) (k : ℕ)
      → IsSorted entries
      → (at entries k ≡ lookup entries k)
        × IsSorted (assign default entries k w)
        × ((j : ℕ) → at (assign default entries k w) j ≡ (if k == j then some w else at entries j))
  assign_refines default w entries k s =
      let sorted = assign-IsSorted default w entries k s in
      (
        at_lem entries k s,
        sorted,
        λ j.
            rw (at_lem (assign default entries k w) j sorted, at_lem entries j s)
              (lookup-assign default w entries k j s),
      )
