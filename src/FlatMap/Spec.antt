-- ===== src/FlatMap/Spec.antt =====
-- What the map of libcoro/include/galois/FlatMap.h promises: a finite function from keys, kept as an
-- array whose keys ascend.
use corograph.Base.{
  ℕ, ◌≡◌, refl, ◌<◌, true, false, List, [], ◌∷◌, Option, none, some, ◌==◌, if◌then◌else◌, ltb,
  arith, Bool-cases, inl, inr,
}

module _ {ℓ} {V : Type ℓ} where
  -- The value of the first entry with the key.
  abbrev pub lookup : List (ℕ × V) → ℕ → Option V
  lookup [] k = none
  lookup ((key, v) ∷ entries) k = let rest = lookup entries k in if key == k then some v else rest

  abbrev pub Above : ℕ → List (ℕ × V) → Type 0
  Above k [] = Unit {0}
  Above k (x ∷ entries) = (k < x.0) × Above k entries

  abbrev pub IsSorted : List (ℕ × V) → Type 0
  IsSorted [] = Unit {0}
  IsSorted (x ∷ entries) = Above x.0 entries × IsSorted entries

  pub Above-less : (j k : ℕ) (entries : List (ℕ × V)) → j < k → Above k entries → Above j entries
  Above-less j k [] less above = tt
  Above-less j k (x ∷ entries) less above = (omega arith, Above-less j k entries less above.1)

  -- A key below all others is not found.
  pub lookup-Above : (k : ℕ) (entries : List (ℕ × V)) → Above k entries → lookup entries k ≡ none
  lookup-Above k [] above = refl
  lookup-Above k ((key, v) ∷ entries) above =
      let other : (key == k) ≡ false = ground arith in
      rw (other, lookup-Above k entries above.1) refl

-- How two keys compare, as the tests of the code see it.
pub data Order (a b : ℕ) : Type 0 where
  less : ltb a b ≡ true → ltb b a ≡ false → (a == b) ≡ false → a < b → Order a b
  same : ltb a b ≡ false → ltb b a ≡ false → (a == b) ≡ true → a ≡ b → Order a b
  more : ltb a b ≡ false → ltb b a ≡ true → (a == b) ≡ false → b < a → Order a b

pub order : (a b : ℕ) → Order a b
order a b = elim (Bool-cases (ltb a b)) [
  | inl lt ↦ less lt (ground arith) (ground arith) (ground arith)
  | inr ge ↦ elim (Bool-cases (ltb b a)) [
    | inl gt ↦ more ge gt (ground arith) (ground arith)
    | inr le ↦ same ge le (ground arith) (ground arith)
  ]
]
