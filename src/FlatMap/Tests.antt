-- ===== src/FlatMap/Tests.antt =====
-- Evaluation tests and concrete instances for the map of libcoro/include/galois/FlatMap.h.
use corograph.Base.{
  ℕ, ◌≡◌, refl, true, false, List, [], ◌∷◌, none, some, ◌==◌, if◌then◌else◌, arith,
}
use corograph.FlatMap.{lower_bound, emplace, index, assign, at, find, count, erase}
use corograph.FlatMap.Spec.{lookup, IsSorted}
use corograph.FlatMap.Lookup.{assign_refines}
use corograph.FlatMap.Emplace.{emplace_refines, keep, is_none}
use corograph.FlatMap.Erase.{erase_refines}

abbrev two_entries : List (ℕ × ℕ)
two_entries = (3, 30) ∷ (7, 70) ∷ []

two_entries-IsSorted : IsSorted two_entries
two_entries-IsSorted = ((omega arith, tt), (tt, tt))

assign-between : assign 0 two_entries 5 50 ≡ (3, 30) ∷ (5, 50) ∷ (7, 70) ∷ []
unfolding assign index lower_bound
assign-between = refl

emplace-between : emplace two_entries (5, 50) ≡ ((3, 30) ∷ (5, 50) ∷ (7, 70) ∷ [], 1, true)
unfolding emplace lower_bound
emplace-between = refl

emplace-old : emplace two_entries (7, 50) ≡ (two_entries, 1, false)
unfolding emplace lower_bound
emplace-old = refl

erase-first : erase two_entries 3 ≡ ((7, 70) ∷ [], 1)
unfolding erase find lower_bound
erase-first = refl

assign_refines_example :
    (at two_entries 7 ≡ lookup two_entries 7)
    × IsSorted (assign 0 two_entries 7 71)
    × ((j : ℕ) → at (assign 0 two_entries 7 71) j ≡ (if 7 == j then some 71 else at two_entries j))
assign_refines_example = assign_refines 0 71 two_entries 7 two_entries-IsSorted

emplace_refines_example :
    IsSorted (emplace two_entries (5, 50)).0
    × ((emplace two_entries (5, 50)).2 ≡ is_none (lookup two_entries 5))
    × ((j : ℕ)
        → lookup (emplace two_entries (5, 50)).0 j
          ≡ (if 5 == j then keep (lookup two_entries 5) 50 else lookup two_entries j))
emplace_refines_example = emplace_refines 50 two_entries 5 two_entries-IsSorted

erase_refines_example :
    IsSorted (erase two_entries 7).0
    × ((erase two_entries 7).1 ≡ (if is_none (lookup two_entries 7) then 0 else 1))
    × (count two_entries 7 ≡ (erase two_entries 7).1)
    × ((j : ℕ) → lookup (erase two_entries 7).0 j ≡ (if 7 == j then none else lookup two_entries j))
erase_refines_example = erase_refines two_entries 7 two_entries-IsSorted
