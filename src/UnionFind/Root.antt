-- ===== src/UnionFind/Root.antt =====
-- The root of a node of libcoro/include/galois/UnionFind.h, where every link leads down.
use corograph.UnionFind.{is_rep, to_root, find}
use corograph.Base.{
  ℕ, zero, suc, ◌≤◌, ◌<◌, ◌≡◌, ◌≢◌, ◌∙◌, refl, sym, inl, inr, true, false, ◌==◌, arith, Bool-cases,
}

-- A link leads to a lower address, and a root to itself.
abbrev pub Descends : (ℕ → ℕ) → Type 0
Descends m = (n : ℕ) → m n ≤ n

unfoldable pub root : (ℕ → ℕ) → ℕ → ℕ
root m n = to_root m n n

module _ (m : ℕ → ℕ) (descends : Descends m) where
  to_root_rep : (k n : ℕ) → m n ≡ n → to_root m k n ≡ n
  unfolding to_root
  to_root_rep zero n e = refl
  to_root_rep (suc k) n e = let f : (m n == n) ≡ true = ground arith in rw f refl

  to_root_next : (k n : ℕ) → m n ≢ n → to_root m (suc k) n ≡ to_root m k (m n)
  unfolding to_root
  to_root_next k n e = let f : (m n == n) ≡ false = ground arith in rw f refl

  -- Fuel beyond the address changes nothing.
  to_root_more : (k j n : ℕ) → n ≤ k → n ≤ j → to_root m k n ≡ to_root m j n
  to_root_more zero j n h p =
      let d = descends n in
      let e : m n ≡ n = omega arith in to_root_rep zero n e ∙ sym (to_root_rep j n e)
  to_root_more (suc k) zero n h p =
      let d = descends n in
      let e : m n ≡ n = omega arith in to_root_rep (suc k) n e ∙ sym (to_root_rep zero n e)
  to_root_more (suc k) (suc j) n h p = elim (Bool-cases (m n == n)) [
    | inl e ↦ to_root_rep (suc k) n (ground arith) ∙ sym (to_root_rep (suc j) n (ground arith))
    | inr e ↦
        let d = descends n in
        let f : m n ≢ n = λ x. ground arith in
        let g : m n < n = ground arith in
        to_root_next k n f
        ∙ to_root_more k j (m n) (omega arith) (omega arith)
        ∙ sym (to_root_next j n f)
  ]

  pub to_root-root : (k n : ℕ) → n ≤ k → to_root m k n ≡ root m n
  unfolding root
  to_root-root k n h = to_root_more k n n h (omega arith)

  -- Two equations determine the root of every node.
  pub root_rep : (n : ℕ) → m n ≡ n → root m n ≡ n
  unfolding root
  root_rep n e = to_root_rep n n e

  pub root_next : (n : ℕ) → root m n ≡ root m (m n)
  root_next n = elim (Bool-cases (m n == n)) [
    | inl e ↦ let f : m n ≡ n = ground arith in rw f refl
    | inr e ↦
        let d = descends n in
        let f : m n ≢ n = λ x. ground arith in
        sym (to_root-root (suc n) n (omega arith)) ∙ to_root_next n n f ∙ to_root-root n (m n) d
  ]

  IsRoot-below :
      (R : ℕ → ℕ)
      → ((n : ℕ) → m n ≡ n → R n ≡ n)
      → ((n : ℕ) → m n ≢ n → R n ≡ R (m n))
      → (k n : ℕ) → n < k
      → root m n ≡ R n
  IsRoot-below R here step zero n h = absurd (omega arith)
  IsRoot-below R here step (suc k) n h = elim (Bool-cases (m n == n)) [
    | inl e ↦ let f : m n ≡ n = ground arith in root_rep n f ∙ sym (here n f)
    | inr e ↦
        let d = descends n in
        let f : m n ≢ n = λ x. ground arith in
        let g : m n < n = ground arith in
        root_next n ∙ IsRoot-below R here step k (m n) (omega arith) ∙ sym (step n f)
  ]

  pub root_unique :
      (R : ℕ → ℕ)
      → ((n : ℕ) → m n ≡ n → R n ≡ n)
      → ((n : ℕ) → m n ≢ n → R n ≡ R (m n))
      → (n : ℕ) → root m n ≡ R n
  root_unique R here step n = IsRoot-below R here step (suc n) n (omega arith)

  root_below : (k n : ℕ) → n < k → (m (root m n) ≡ root m n) × (root m n ≤ n)
  root_below zero n h = absurd (omega arith)
  root_below (suc k) n h = elim (Bool-cases (m n == n)) [
    | inl e ↦ let f : m n ≡ n = ground arith in rw (root_rep n f) (f, omega arith)
    | inr e ↦
        let d = descends n in
        let g : m n < n = ground arith in
        let r = root_below k (m n) (omega arith) in rw (root_next n) (r.0, omega (arith, r.1))
  ]

  -- The root of a node is its own component, and no higher than the node.
  pub root_fixed : (n : ℕ) → m (root m n) ≡ root m n
  root_fixed n = (root_below (suc n) n (omega arith)).0

  pub root_le : (n : ℕ) → root m n ≤ n
  root_le n = (root_below (suc n) n (omega arith)).1

  pub find-root : (n : ℕ) → find m n ≡ root m n
  unfolding find is_rep
  find-root n = elim (Bool-cases (m n == n)) [
    | inl e ↦ let f : m n ≡ n = ground arith in rw e (f ∙ sym (root_rep n f))
    | inr e ↦ rw e (to_root-root (m n) (m n) (omega arith) ∙ sym (root_next n))
  ]
