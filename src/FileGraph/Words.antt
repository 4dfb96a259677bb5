-- ===== src/FileGraph/Words.antt =====
-- Words in memory, as libcoro/src/FileGraph.cpp writes them one behind the other.
use native.Mathlib.Nat.{mul-le-mul_left}
use corograph.Endian.{store_le, load_le, host_store}
use corograph.Endian.Bytes.{store_le_frame, load_le-store_le, store_le_small}
use corograph.FileGraph.{write_words}
use corograph.Base.{
  ℕ, zero, suc, ◌+◌, ◌*◌, ◌^◌, ◌≤◌, ◌<◌, ◌≡◌, ◌⊎◌, ◌∙◌, inl, inr, refl, Bool, ◌==◌, arith,
  Bool-cases,
}

-- A read sees only the bytes that it reads.
pub load_le_cong :
    (w : ℕ) (m m' : ℕ → ℕ) (p : ℕ)
    → ((a : ℕ) → p ≤ a → a < p + w → m a ≡ m' a)
    → load_le w m p ≡ load_le w m' p
unfolding load_le
load_le_cong zero m m' p h = refl
load_le_cong (suc w) m m' p h =
    let a = h p (omega arith) (omega arith) in
    let b = load_le_cong w m m' (p + 1) (λ a q r. h a (omega arith) (omega arith)) in omega arith

module _ (little : Bool) (w p : ℕ) (f g : ℕ → ℕ)
    (same : (i q : ℕ) (m : ℕ → ℕ) → host_store little w m q (f i) ≡ store_le w m q (g i)) where
  pub write_words_frame :
      (left i : ℕ) (mem : ℕ → ℕ) (a : ℕ)
      → (a < p + w * i) ⊎ (p + w * (i + left) ≤ a)
      → write_words little w mem p f left i a ≡ mem a
  unfolding write_words
  write_words_frame zero i mem a h = refl
  write_words_frame (suc left) i mem a h =
      let e : w * suc i ≡ w * i + w = grind arith in
      let j : suc i + left ≡ i + suc left = omega arith in
      let k : w * suc i ≤ w * (i + suc left) = mul-le-mul_left w (omega arith) in
      let s = same i (p + w * i) mem in
      write_words_frame left (suc i) (host_store little w mem (p + w * i) (f i)) a
        (rw j (ground arith))
      ∙ rw s (store_le_frame w mem (p + w * i) (g i) a (ground arith))

  pub write_words_read :
      (left i k : ℕ) (mem : ℕ → ℕ)
      → i ≤ k
      → k < i + left
      → g k < 256 ^ w
      → load_le w (write_words little w mem p f left i) (p + w * k) ≡ g k
  unfolding write_words
  write_words_read zero i k mem h q small = absurd (omega arith)
  write_words_read (suc left) i k mem h q small =
      let s = same i (p + w * i) mem in
      elim (Bool-cases (k == i)) [
        | inl e ↦
            let x : k ≡ i = ground arith in
            let y : w * suc i ≡ w * i + w = grind arith in
            rw x (
              load_le_cong w _ (host_store little w mem (p + w * i) (f i)) (p + w * i) (λ a b c.
                write_words_frame left (suc i) (host_store little w mem (p + w * i) (f i)) a
                  (inl (omega arith)))
              ∙ rw s (load_le-store_le w mem (p + w * i) (g i) (rw x at small)))
        | inr e ↦
            write_words_read left (suc i) k (host_store little w mem (p + w * i) (f i))
              (ground arith) (omega arith) small
      ]

  pub write_words_small :
      (left i : ℕ) (mem : ℕ → ℕ)
      → ((a : ℕ) → mem a < 2 ^ 8)
      → (a : ℕ) → write_words little w mem p f left i a < 2 ^ 8
  unfolding write_words
  write_words_small zero i mem bytes = bytes
  write_words_small (suc left) i mem bytes =
      write_words_small left (suc i) (host_store little w mem (p + w * i) (f i))
        (λ a. rw (same i (p + w * i) mem) (store_le_small w mem (p + w * i) (g i) bytes a))
