-- ===== src/RingDeque/Refines.antt =====
-- The ring of libcoro/include/galois/FixedSizeRing.h is a list that holds up to `chunk_size` values
-- and changes at its ends.
use native.Mathlib.Nat.{mod-lt}
use corograph.RingDeque.{
  FixedSizeRing, before_start, full, empty, emplace_front, emplace_back, front, pop_front, back,
  pop_back, extract_back,
}
use corograph.RingDeque.Contents.{contents, IsRing, length-contents}
use corograph.RingDeque.Ends.{before_start_lem, front_written, front_destroyed, back_destroyed}
use corograph.Base.{
  ℕ, suc, ◌+◌, ◌-◌, ◌%◌, ◌<◌, ◌≡◌, ◌∙◌, refl, sym, ap, ap₂, inl, inr, Bool, true, false, List, [],
  ◌∷◌, ◌++◌, Option, none, some, length, ◌==◌, if◌then◌else◌, arith, Bool-cases, update, u32, sub32,
}

abbrev pub is_placed : Option ℕ → Bool
is_placed none = false
is_placed (some place) = true

module _ {ℓ} {A : Type ℓ} (chunk_size : ℕ) where
  unfoldable pub values : FixedSizeRing A → List (Option A)
  values r = contents chunk_size r.slots r.start r.count

  -- What a caller sees of an emplacement.
  abbrev pub seen : FixedSizeRing A × Option ℕ → List (Option A) × Bool
  seen result = (values result.0, is_placed result.1)

  -- The operations on a list of at most `chunk_size` values.
  unfoldable pub bounded_front : Option A → List (Option A) → List (Option A) × Bool
  bounded_front v vs = if length vs == chunk_size then (vs, false) else (v ∷ vs, true)

  unfoldable pub bounded_back : Option A → List (Option A) → List (Option A) × Bool
  bounded_back v vs = if length vs == chunk_size then (vs, false) else (vs ++ v ∷ [], true)

  module _ (r : FixedSizeRing A) (ring : IsRing chunk_size r) where
    length-values : length (values r) ≡ r.count
    unfolding values
    length-values = length-contents chunk_size r.slots r.start r.count

    -- An emplacement at the front is one of the bounded list, and so is whether it answers with a
    -- place; the ring stays well formed.
    pub front_refines :
        (v : A)
        → (seen (emplace_front chunk_size r v) ≡ bounded_front (some v) (values r))
          × IsRing chunk_size (emplace_front chunk_size r v).0
    unfolding values bounded_front emplace_front full
    front_refines v = elim (Bool-cases (r.count == chunk_size)) [
      | inl e ↦ let l = length-values in rw l (rw e (refl, ring))
      | inr e ↦
          let l = length-values in
          let s = ring.some_slot in
          let m = ring.small in
          let c = ring.counted in
          let k : u32 (r.count + 1) ≡ suc r.count = ground arith in
          let h : r.count < chunk_size = ground arith in
          rw l (
            rw e (
              rw k (
                ap (λ xs. (xs, true))
                    (front_written chunk_size s m r.start ring.started r.slots (some v) r.count h),
                record {
                  some_slot = s;
                  small = m;
                  started = mod-lt (sub32 (r.start + chunk_size) 1) s;
                  counted = h;
                },
              )))
    ]

    -- In a ring with a value, `front` and `back` are the first and last value of the list, each pop
    -- takes the value of its end off it, `extract_back` gives the last value and pops it, and the
    -- ring stays well formed after a pop at the back.
    pub pops_refine :
        0 < r.count
        → (values r ≡ front chunk_size r ∷ values (pop_front chunk_size r))
          × (values r ≡ values (pop_back chunk_size r) ++ back chunk_size r ∷ [])
          × (extract_back chunk_size r ≡ (pop_back chunk_size r, back chunk_size r))
          × IsRing chunk_size (pop_back chunk_size r)
    unfolding values front pop_front back pop_back extract_back empty
    pops_refine h =
        let s = ring.some_slot in
        let m = ring.small in
        let st = ring.started in
        let c = ring.counted in
        let n = r.count - 1 in
        let below : n < chunk_size = omega arith in
        let e : (r.count == 0) ≡ false = ground arith in
        let k : sub32 r.count 1 ≡ n = omega arith in
        let p : u32 (r.start + 1) ≡ suc r.start = omega arith in
        let l : sub32 (r.start + r.count) 1 ≡ r.start + n = omega arith in
        let f : r.count ≡ suc n = omega arith in
        let whole = ap (contents chunk_size r.slots r.start) f in
        (
          whole
              ∙ front_destroyed chunk_size s r.slots r.start st n below
              ∙ ap₂
                  (λ i left.
                    r.slots r.start ∷ contents chunk_size (update r.slots r.start none) i left)
                  (sym p) (sym k),
          whole
              ∙ back_destroyed chunk_size s r.slots r.start st n below
              ∙ ap₂
                  (λ i left.
                    contents chunk_size (update r.slots i none) r.start left ++ r.slots i ∷ [])
                  (ap (λ i. i % chunk_size) (sym l)) (sym k),
          rw e refl,
          record { some_slot = s; small = m; started = st; counted = omega arith },
        )

    -- From a ring that starts at slot 0 and has room for two values more, the value that
    -- `emplace_back` takes after `emplace_front` gets a slot at or behind the end of the storage.
    pub back_after_front :
        (v w : A)
        → r.start ≡ 0
        → suc r.count < chunk_size
        → (emplace_back chunk_size (emplace_front chunk_size r v).0 w).1
          ≡ some (chunk_size + r.count)
    unfolding emplace_front emplace_back full
    back_after_front v w z h =
        let m = ring.small in
        let b = before_start_lem chunk_size ring.some_slot m r.start ring.started in
        let s : before_start chunk_size r.start ≡ chunk_size - 1 = ground arith in
        let e : (r.count == chunk_size) ≡ false = ground arith in
        let f : (suc r.count == chunk_size) ≡ false = ground arith in
        let k : u32 (r.count + 1) ≡ suc r.count = omega arith in
        let p : u32 (chunk_size - 1 + suc r.count) ≡ chunk_size + r.count = omega arith in
        rw e (rw s (rw k (rw f (ap some p))))
