-- ===== src/UnionFind/Tests.antt =====
-- Two trees of libcoro/include/galois/UnionFind.h: 5 → 3 → 1 and 4 → 2.
use corograph.UnionFind.{find, is_rep, to_root, find_and_compress, merge}
use corograph.UnionFind.Root.{Descends}
use corograph.UnionFind.Compress.{find_and_compress-find}
use corograph.UnionFind.Merge.{merge_joins}
use corograph.Base.{ℕ, ◌≡◌, ◌==◌, if◌then◌else◌, arith, min, max, refl, some}

abbrev trees : ℕ → ℕ
trees n = if n == 5 then 3 else if n == 4 then 2 else if n == 3 then 1 else n

trees-Descends : Descends trees
trees-Descends n = ground arith

found : find trees 5 ≡ 1
unfolding find is_rep to_root
found = refl

find_and_compress-find_example :
    ((find_and_compress trees 5).0 ≡ find trees 5)
    × Descends (find_and_compress trees 5).1
    × ((x : ℕ) → find (find_and_compress trees 5).1 x ≡ find trees x)
find_and_compress-find_example = find_and_compress-find trees trees-Descends 5

merge_joins_example :
    (m' : ℕ → ℕ) × (merge trees 5 4
      ≡ some (if find trees 5 == find trees 4 then 0 else min (find trees 5) (find trees 4), m'))
    × Descends m'
    × ((x : ℕ)
        → find m' x ≡ (
            if find trees x == max (find trees 5) (find trees 4)
            then min (find trees 5) (find trees 4)
            else find trees x))
merge_joins_example = merge_joins trees trees-Descends 5 4
