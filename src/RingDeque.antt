-- ===== src/RingDeque.antt =====
-- `FixedSizeRing` of libcoro/include/galois/FixedSizeRing.h. `slots` are its storage and what lies
-- behind it: a slot without a constructed value is `none`, and `datac` has the first `chunk_size`.
pub mod Contents
pub mod Ends
pub mod Refines
pub mod Whole
mod Tests
use corograph.Base.{
  ℕ, zero, suc, ◌+◌, ◌%◌, Bool, true, false, List, [], ◌∷◌, Option, none, some, ◌==◌, if◌then◌else◌,
  u32, sub32, update,
}

pub record FixedSizeRing {ℓ} (A : Type ℓ) : Type ℓ where
  pub slots : ℕ → Option A
  pub start : ℕ
  pub count : ℕ

-- The slot before the first one, around the end of the storage.
abbrev pub before_start : (chunk_size start : ℕ) → ℕ
before_start chunk_size start = sub32 (start + chunk_size) 1 % chunk_size

module _ {ℓ} {A : Type ℓ} (chunk_size : ℕ) where
  -- The constructors, with a sequence or without.
  unfoldable pub fill_ring : FixedSizeRing A → List A → FixedSizeRing A
  fill_ring r [] = r
  fill_ring r (x ∷ xs) =
      fill_ring (record r { slots = update r.slots r.count (some x); count = u32 (r.count + 1) }) xs

  abbrev pub new_ring : FixedSizeRing A
  new_ring = record { slots = λ i. none; start = 0; count = 0 }

  unfoldable pub empty : FixedSizeRing A → Bool
  empty r = r.count == 0

  unfoldable pub full : FixedSizeRing A → Bool
  full r = r.count == chunk_size

  -- The loop of `clear`.
  unfoldable pub destroy_all : (ℕ → Option A) → (start left x : ℕ) → ℕ → Option A
  destroy_all slots start zero x = slots
  destroy_all slots start (suc left) x =
      destroy_all (update slots (u32 (start + x)) none) start left (suc x)

  unfoldable pub clear_ring : FixedSizeRing A → FixedSizeRing A
  clear_ring r = record { slots = destroy_all r.slots r.start r.count 0; start = 0; count = 0 }

  abbrev pub last_slot : FixedSizeRing A → ℕ
  last_slot r = sub32 (r.start + r.count) 1 % chunk_size

  -- The place of the new value, or nothing for the null pointer.
  unfoldable pub emplace_front : FixedSizeRing A → A → FixedSizeRing A × Option ℕ
  emplace_front r val =
      let start = before_start chunk_size r.start in
      if full r then (r, none) else (
        record {
          slots = update r.slots start (some val);
          start = start;
          count = u32 (r.count + 1);
        },
        some start,
      )

  -- The end is not taken around the end of the storage.
  unfoldable pub emplace_back : FixedSizeRing A → A → FixedSizeRing A × Option ℕ
  emplace_back r val =
      let end = u32 (r.start + r.count) in
      if full r
      then (r, none)
      else (record r { slots = update r.slots end (some val); count = u32 (r.count + 1) }, some end)

  unfoldable pub front : FixedSizeRing A → Option A
  front r = r.slots r.start

  unfoldable pub pop_front : FixedSizeRing A → FixedSizeRing A
  pop_front r = record {
    slots = update r.slots r.start none;
    start = u32 (r.start + 1);
    count = sub32 r.count 1;
  }

  unfoldable pub back : FixedSizeRing A → Option A
  back r = r.slots (last_slot r)

  unfoldable pub pop_back : FixedSizeRing A → FixedSizeRing A
  pop_back r = record r { slots = update r.slots (last_slot r) none; count = sub32 r.count 1 }

  unfoldable pub extract_back : FixedSizeRing A → FixedSizeRing A × Option A
  extract_back r = if empty r then (r, none) else (pop_back r, back r)
