-- ===== src/RingDeque/Ends.antt =====
-- What a write or a destruction at an end does to the contents of a ring of libcoro/include/galois/FixedSizeRing.h.
use native.Mathlib.Nat.{mod-eq_of_lt, mod-lt}
use corograph.RingDeque.{before_start}
use corograph.RingDeque.Contents.{contents, around, contents_shift, contents_frame, contents_end}
use corograph.Base.{
  ℕ, suc, ◌+◌, ◌-◌, ◌%◌, ◌^◌, ◌<◌, ◌≡◌, ◌≢◌, ◌∙◌, refl, sym, ap, ap₂, inl, inr, [], ◌∷◌, ◌++◌,
  Option, none, ◌==◌, if◌then◌else◌, arith, Bool-cases, update, update_same, sub32,
}

module _ (chunk_size : ℕ) (some_slot : 0 < chunk_size) where
  -- Fewer than a whole round on, another slot is met.
  later_slot :
      (start i : ℕ) → start < chunk_size → suc i < chunk_size → (suc start + i) % chunk_size ≢ start
  later_slot start i s p e =
      let a = around chunk_size (suc start + i) some_slot (omega arith) in ground arith

  module _ (small : chunk_size < 2 ^ 31) (start : ℕ) (started : start < chunk_size) where
    pub before_start_lem :
        before_start chunk_size start ≡ (if start == 0 then chunk_size - 1 else start - 1)
    before_start_lem =
        let e : sub32 (start + chunk_size) 1 ≡ start + chunk_size - 1 = omega arith in
        rw e (around chunk_size (start + chunk_size - 1) some_slot (omega arith) ∙ ground arith)

    after_before {ℓ} :
        {A : Type ℓ} (slots : ℕ → Option A) (n : ℕ)
        → contents chunk_size slots (suc (before_start chunk_size start)) n
          ≡ contents chunk_size slots start n
    after_before slots n = elim (Bool-cases (start == 0)) [
      | inl e ↦
          let b = before_start_lem in
          let s : suc (before_start chunk_size start) ≡ start + chunk_size = ground arith in
          rw s (contents_shift chunk_size slots start n)
      | inr e ↦
          let b = before_start_lem in
          let s : suc (before_start chunk_size start) ≡ start = ground arith in rw s refl
    ]

    pub front_written {ℓ} :
        {A : Type ℓ} (slots : ℕ → Option A) (v : Option A) (n : ℕ)
        → n < chunk_size
        → let s = before_start chunk_size start in
          contents chunk_size (update slots s v) s (suc n) ≡ v ∷ contents chunk_size slots start n
    unfolding contents
    front_written slots v n h =
        let s = before_start chunk_size start in
        let below : s < chunk_size = mod-lt (sub32 (start + chunk_size) 1) some_slot in
        let at_s : s % chunk_size ≡ s = mod-eq_of_lt below in
        ap₂ (λ x xs. x ∷ xs) (rw at_s (update_same slots s v))
          (contents_frame chunk_size slots s v (suc s) n (λ i p. later_slot s i below (omega arith))
            ∙ after_before slots n)

  module _ {ℓ} {A : Type ℓ} (slots : ℕ → Option A) (start : ℕ) (started : start < chunk_size) where
    pub back_written :
        (v : Option A) (n : ℕ)
        → start + n < chunk_size
        → contents chunk_size (update slots (start + n) v) start (suc n)
          ≡ contents chunk_size slots start n ++ v ∷ []
    back_written v n h =
        contents_end chunk_size (update slots (start + n) v) start n
        ∙ ap₂ (λ xs x. xs ++ x ∷ [])
            (contents_frame chunk_size slots (start + n) v start n (λ i p e.
              let a : (start + i) % chunk_size ≡ start + i = mod-eq_of_lt (omega arith) in
              omega arith))
            (let a : (start + n) % chunk_size ≡ start + n = mod-eq_of_lt h in
              rw a (update_same slots (start + n) v))

    pub front_destroyed :
        (n : ℕ)
        → n < chunk_size
        → contents chunk_size slots start (suc n)
          ≡ slots start ∷ contents chunk_size (update slots start none) (suc start) n
    unfolding contents
    front_destroyed n h =
        ap₂ (λ x xs. x ∷ xs) (ap slots (mod-eq_of_lt started))
          (sym (
            contents_frame chunk_size slots start none (suc start) n
              (λ i p. later_slot start i started (omega arith))))

    pub back_destroyed :
        (n : ℕ)
        → n < chunk_size
        → let last = (start + n) % chunk_size in
          contents chunk_size slots start (suc n)
          ≡ contents chunk_size (update slots last none) start n ++ slots last ∷ []
    back_destroyed n h =
        let last = (start + n) % chunk_size in
        contents_end chunk_size slots start n
        ∙ ap (λ xs. xs ++ slots last ∷ [])
            (sym (
              contents_frame chunk_size slots last none start n (λ i p e.
                let a = around chunk_size (start + i) some_slot (omega arith) in
                let b = around chunk_size (start + n) some_slot (omega arith) in ground arith)))
