-- ===== src/FlatMap.antt =====
-- The sorted array map of libcoro/include/galois/FlatMap.h, with the keys and the order that the
-- work list uses it with: `flat_map<uint32, T, std::less<uint32>>`. `entries` is `_data`; an iterator
-- is a position in it, and `length entries` is `end()`.
pub mod Spec
pub mod Steps
pub mod Lookup
pub mod Emplace
pub mod Erase
mod Tests
use corograph.Base.{
  ℕ, zero, suc, ◌≡◌, Bool, true, false, not, ◌||◌, ◌&&◌, List, [], ◌∷◌, ◌++◌, Option, none, some,
  ◌==◌, if◌then◌else◌, ltb, length, take, get_elem?,
}

module _ {ℓ} {V : Type ℓ} where
  -- `std::lower_bound` on keys: the first position whose key is not less.
  unfoldable pub lower_bound : List (ℕ × V) → ℕ → ℕ
  lower_bound [] k = 0
  lower_bound ((key, v) ∷ entries) k =
      let rest = lower_bound entries k in if ltb key k then suc rest else 0

  -- `i == end() || key_comp()(k, i->first)`.
  abbrev pub absent : List (ℕ × V) → ℕ → ℕ → Bool
  absent [] i k = true
  absent ((key, v) ∷ entries) zero k = ltb k key
  absent ((key, v) ∷ entries) (suc i) k = absent entries i k

  -- `_data.emplace(i, x)`, `_data.erase(i)` and `_data.pop_back()` of the vector.
  abbrev pub insert_at : List (ℕ × V) → ℕ → ℕ × V → List (ℕ × V)
  insert_at entries zero x = x ∷ entries
  insert_at [] (suc i) x = x ∷ []
  insert_at (y ∷ entries) (suc i) x = y ∷ insert_at entries i x

  abbrev pub erase_at : List (ℕ × V) → ℕ → List (ℕ × V)
  erase_at [] i = []
  erase_at (y ∷ entries) zero = entries
  erase_at (y ∷ entries) (suc i) = y ∷ erase_at entries i

  abbrev pub pop_back : List (ℕ × V) → List (ℕ × V)
  pop_back [] = []
  pop_back (x ∷ []) = []
  pop_back (x ∷ y ∷ entries) = x ∷ pop_back (y ∷ entries)

  -- `emplace`: the position of the entry, and whether it is new.
  unfoldable pub emplace : List (ℕ × V) → ℕ × V → List (ℕ × V) × ℕ × Bool
  emplace entries (k, v) =
      let grown = entries ++ (k, v) ∷ [] in
      let i = lower_bound entries k in
      if absent entries i k
      then if not (i == length entries)
        then (pop_back (insert_at grown i (k, v)), i, true)
        else (grown, i, true)
      else (pop_back grown, i, false)

  -- `operator[]`: the position of the entry, which it makes with the value `T()` if there is none.
  unfoldable pub index : V → List (ℕ × V) → ℕ → List (ℕ × V) × ℕ
  index default entries k =
      let i = lower_bound entries k in
      if absent entries i k then (insert_at entries i (k, default), i) else (entries, i)

  -- A write through the reference that `operator[]` returns.
  abbrev pub write_at : List (ℕ × V) → ℕ → V → List (ℕ × V)
  write_at [] i v = []
  write_at ((key, old) ∷ entries) zero v = (key, v) ∷ entries
  write_at (x ∷ entries) (suc i) v = x ∷ write_at entries i v

  -- `m[k] = v`.
  unfoldable pub assign : V → List (ℕ × V) → ℕ → V → List (ℕ × V)
  assign default entries k v = let (grown, i) = index default entries k in write_at grown i v

  abbrev pub value_at : List (ℕ × V) → ℕ → Option V
  value_at [] i = none
  value_at ((key, v) ∷ entries) zero = some v
  value_at (x ∷ entries) (suc i) = value_at entries i

  -- `at`; `none` is the exception `std::out_of_range`.
  unfoldable pub at : List (ℕ × V) → ℕ → Option V
  at entries k =
      let i = lower_bound entries k in if absent entries i k then none else value_at entries i

  -- `i != end() && key_eq(i->first, k)`.
  abbrev pub present : List (ℕ × V) → ℕ → ℕ → Bool
  present [] i k = false
  present ((key, v) ∷ entries) zero k = not (ltb key k) && not (ltb k key)
  present ((key, v) ∷ entries) (suc i) k = present entries i k

  -- `find`.
  unfoldable pub find : List (ℕ × V) → ℕ → ℕ
  find entries k =
      let i = lower_bound entries k in if present entries i k then i else length entries

  -- `count`.
  unfoldable pub count : List (ℕ × V) → ℕ → ℕ
  count entries k = if find entries k == length entries then 0 else 1

  -- `erase` of a key: what is left, and the number of entries erased.
  unfoldable pub erase : List (ℕ × V) → ℕ → List (ℕ × V) × ℕ
  erase entries k =
      let i = find entries k in
      if not (i == length entries) then (erase_at entries i, 1) else (entries, 0)
