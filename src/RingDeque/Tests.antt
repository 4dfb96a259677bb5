-- ===== src/RingDeque/Tests.antt =====
-- A ring of libcoro/include/galois/FixedSizeRing.h with four slots.
use corograph.RingDeque.{
  FixedSizeRing, full, new_ring, fill_ring, clear_ring, emplace_front, emplace_back, front,
  pop_front, back, pop_back, extract_back,
}
use corograph.RingDeque.Contents.{IsRing, contents}
use corograph.RingDeque.Refines.{
  values, seen, bounded_front, front_refines, pops_refine, back_after_front,
}
use corograph.RingDeque.Whole.{fill_ring-values, clear_ring_lem}
use corograph.Base.{ℕ, ◌+◌, ◌≡◌, refl, [], ◌∷◌, ◌++◌, none, some, ltb, if◌then◌else◌, arith}

abbrev new : FixedSizeRing ℕ
new = new_ring 4

new-IsRing : IsRing 4 new
new-IsRing = record {
  some_slot = omega arith;
  small = omega arith;
  started = omega arith;
  counted = omega arith;
}

-- The values 5 and 6 from slot 0 on.
abbrev two_values : FixedSizeRing ℕ
two_values = record { slots = λ i. if ltb i 2 then some (i + 5) else none; start = 0; count = 2 }

two_values-IsRing : IsRing 4 two_values
two_values-IsRing = record {
  some_slot = omega arith;
  small = omega arith;
  started = omega arith;
  counted = omega arith;
}

front_around : values 4 (emplace_front 4 two_values 9).0 ≡ some 9 ∷ some 5 ∷ some 6 ∷ []
unfolding values contents emplace_front full
front_around = refl

-- A ring that the constructor has filled.
abbrev filled : FixedSizeRing ℕ
filled = fill_ring 4 new (7 ∷ 8 ∷ [])

filled-IsRing : IsRing 4 filled
filled-IsRing = (fill_ring-values 4 (7 ∷ 8 ∷ []) new new-IsRing refl (omega arith)).1

cleared : values 4 (clear_ring 4 filled) ≡ []
cleared = (clear_ring_lem 4 filled filled-IsRing).0

front_refines_example :
    (seen 4 (emplace_front 4 two_values 9) ≡ bounded_front 4 (some 9) (values 4 two_values))
    × IsRing 4 (emplace_front 4 two_values 9).0
front_refines_example = front_refines 4 two_values two_values-IsRing 9

pops_refine_example :
    (values 4 two_values ≡ front 4 two_values ∷ values 4 (pop_front 4 two_values))
    × (values 4 two_values ≡ values 4 (pop_back 4 two_values) ++ back 4 two_values ∷ [])
    × (extract_back 4 two_values ≡ (pop_back 4 two_values, back 4 two_values))
    × IsRing 4 (pop_back 4 two_values)
pops_refine_example = pops_refine 4 two_values two_values-IsRing (omega arith)

back_after_front_example : (emplace_back 4 (emplace_front 4 two_values 9).0 8).1 ≡ some 6
back_after_front_example = back_after_front 4 two_values two_values-IsRing 9 8 refl (omega arith)
