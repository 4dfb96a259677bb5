-- ===== src/RingDeque/Whole.antt =====
-- The constructor that takes a sequence and `clear` of libcoro/include/galois/FixedSizeRing.h.
use corograph.RingDeque.{FixedSizeRing, fill_ring, destroy_all, clear_ring}
use corograph.RingDeque.Contents.{contents, IsRing}
use corograph.RingDeque.Ends.{back_written}
use corograph.RingDeque.Refines.{values}
use corograph.Base.{
  ℕ, zero, suc, ◌+◌, ◌^◌, ◌≤◌, ◌<◌, ◌≡◌, ◌∙◌, refl, sym, ap, false, List, [], ◌∷◌, ◌++◌, map,
  append-nil, append_assoc, Option, none, some, length, leb, ltb, ◌&&◌, if◌then◌else◌, arith,
  update, u32,
}

module _ {ℓ} {A : Type ℓ} (chunk_size : ℕ) where
  -- Values that a ring from slot 0 has room for are appended to its values by the loop of the
  -- constructor, and the ring stays well formed.
  pub fill_ring-values :
      (xs : List A) (r : FixedSizeRing A)
      → IsRing chunk_size r
      → r.start ≡ 0
      → r.count + length xs ≤ chunk_size
      → (values chunk_size (fill_ring chunk_size r xs) ≡ values chunk_size r ++ map some xs)
        × IsRing chunk_size (fill_ring chunk_size r xs)
  unfolding fill_ring values
  fill_ring-values [] r ring z h = (sym (append-nil (values chunk_size r)), ring)
  fill_ring-values (x ∷ xs) r ring z h =
      let s = ring.some_slot in
      let m = ring.small in
      let k : u32 (r.count + 1) ≡ suc r.count = omega arith in
      let next : FixedSizeRing A = record r {
        slots = update r.slots r.count (some x);
        count = u32 (r.count + 1);
      } in
      let ring' : IsRing chunk_size next = record {
        some_slot = s;
        small = m;
        started = ring.started;
        counted = omega arith;
      } in
      let rest = fill_ring-values xs next ring' z (omega arith) in
      let place : r.start + r.count ≡ r.count = omega arith in
      let written : values chunk_size next ≡ values chunk_size r ++ some x ∷ [] =
        ap (contents chunk_size next.slots r.start) k
        ∙ (rw place at (
            back_written chunk_size s r.slots r.start ring.started (some x) r.count
              (omega arith))) in
      (
        rest.0
            ∙ ap (λ vs. vs ++ map some xs) written
            ∙ append_assoc (values chunk_size r) (some x ∷ []) (map some xs),
        rest.1,
      )

  -- The destructions run over the slots from `start + x` on, and not around the storage.
  destroy_all-slots :
      (slots : ℕ → Option A) (start left x i : ℕ)
      → start + x + left < 2 ^ 32
      → destroy_all chunk_size slots start left x i
        ≡ (if leb (start + x) i && ltb i (start + x + left) then none else slots i)
  unfolding destroy_all
  destroy_all-slots slots start zero x i h =
      let e : (leb (start + x) i && ltb i (start + x + 0)) ≡ false = ground arith in rw e refl
  destroy_all-slots slots start (suc left) x i h =
      let rest =
        destroy_all-slots (update slots (u32 (start + x)) none) start left (suc x) i
          (omega arith) in
      let p : u32 (start + x) ≡ start + x = omega arith in rest ∙ ground arith

  -- `clear` leaves a well-formed ring without values, and destroys as many slots as there were
  -- values from `start` on, not around the end of the storage, and no other.
  pub clear_ring_lem :
      (r : FixedSizeRing A)
      → IsRing chunk_size r
      → (values chunk_size (clear_ring chunk_size r) ≡ [])
        × IsRing chunk_size (clear_ring chunk_size r)
        × ((i : ℕ)
            → (clear_ring chunk_size r).slots i
              ≡ (if leb r.start i && ltb i (r.start + r.count) then none else r.slots i))
  unfolding values contents clear_ring
  clear_ring_lem r ring =
      let s = ring.some_slot in
      let m = ring.small in
      let st = ring.started in
      let c = ring.counted in
      let z : r.start + 0 ≡ r.start = omega arith in
      (
        refl,
        record { some_slot = s; small = m; started = s; counted = omega arith },
        λ i. rw z at (destroy_all-slots r.slots r.start r.count 0 i (omega arith)),
      )
