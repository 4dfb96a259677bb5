-- ===== src/RingDeque/Contents.antt =====
-- The values of a ring of libcoro/include/galois/FixedSizeRing.h, in their order around its storage.
use native.Mathlib.Nat.{mod-eq_of_lt, mod-eq-sub-mod, add-mod_right}
use corograph.RingDeque.{FixedSizeRing}
use corograph.Base.{
  ℕ, zero, suc, ◌+◌, ◌-◌, ◌%◌, ◌^◌, ◌≤◌, ◌<◌, ◌≡◌, ◌≢◌, ◌∙◌, refl, ap, ap₂, inl, inr, List, [], ◌∷◌,
  ◌++◌, length, Option, ltb, if◌then◌else◌, arith, Bool-cases, update, update_other, ltb→lt, ltb→le,
}

module _ {ℓ} {A : Type ℓ} (chunk_size : ℕ) where
  -- The `n` slots from `start` on.
  unfoldable pub contents : (ℕ → Option A) → (start n : ℕ) → List (Option A)
  contents slots start zero = []
  contents slots start (suc n) = slots (start % chunk_size) ∷ contents slots (suc start) n

  pub record IsRing (r : FixedSizeRing A) : Type 0 where
    pub some_slot : 0 < chunk_size
    pub small : chunk_size < 2 ^ 31
    pub started : r.start < chunk_size
    pub counted : r.count ≤ chunk_size

-- A place in the first two rounds.
pub around :
    (chunk_size a : ℕ)
    → 0 < chunk_size
    → a < chunk_size + chunk_size
    → a % chunk_size ≡ (if ltb a chunk_size then a else a - chunk_size)
around chunk_size a h p = elim (Bool-cases (ltb a chunk_size)) [
  | inl e ↦ rw e (mod-eq_of_lt (ltb→lt a chunk_size e))
  | inr e ↦ rw e (let l = ltb→le a chunk_size e in mod-eq-sub-mod l ∙ mod-eq_of_lt (omega arith))
]

module _ {ℓ} {A : Type ℓ} (chunk_size : ℕ) where
  pub contents_shift :
      (slots : ℕ → Option A) (start n : ℕ)
      → contents chunk_size slots (start + chunk_size) n ≡ contents chunk_size slots start n
  unfolding contents
  contents_shift slots start zero = refl
  contents_shift slots start (suc n) =
      let e : suc start + chunk_size ≡ suc (start + chunk_size) = omega arith in
      ap₂ (λ i xs. slots i ∷ xs) (add-mod_right start chunk_size)
        (rw e at (contents_shift slots (suc start) n))

  pub length-contents :
      (slots : ℕ → Option A) (start n : ℕ) → length (contents chunk_size slots start n) ≡ n
  unfolding contents
  length-contents slots start zero = refl
  length-contents slots start (suc n) = ap suc (length-contents slots (suc start) n)

  -- A write of another slot is not seen.
  pub contents_frame :
      (slots : ℕ → Option A) (a : ℕ) (v : Option A) (start n : ℕ)
      → ((i : ℕ) → i < n → (start + i) % chunk_size ≢ a)
      → contents chunk_size (update slots a v) start n ≡ contents chunk_size slots start n
  unfolding contents
  contents_frame slots a v start zero h = refl
  contents_frame slots a v start (suc n) h =
      let z : start + 0 ≡ start = omega arith in
      ap₂ (λ x xs. x ∷ xs)
        (update_other slots a v (start % chunk_size) (rw z at (h 0 (omega arith))))
        (contents_frame slots a v (suc start) n (λ i p.
          let e : suc start + i ≡ start + suc i = omega arith in rw e (h (suc i) (omega arith))))

  pub contents_end :
      (slots : ℕ → Option A) (start n : ℕ)
      → contents chunk_size slots start (suc n)
        ≡ contents chunk_size slots start n ++ slots ((start + n) % chunk_size) ∷ []
  unfolding contents
  contents_end slots start zero = let z : start + 0 ≡ start = omega arith in rw z refl
  contents_end slots start (suc n) =
      let e : suc start + n ≡ start + suc n = omega arith in
      ap (λ xs. slots (start % chunk_size) ∷ xs) (rw e at (contents_end slots (suc start) n))
