-- ===== src/Executor.antt =====
-- The edge map of libcoro/include/galois/runtime/Executor_ForEach.h: the bodies of `coro_scatter`
-- and `coro_gather`, which read the arrays that `partition` wrote. Prefetches have no effect on the
-- values and are left out; a coroutine's suspension points do not change what it computes.
pub mod Words
pub mod Deliver
pub mod RoundTrip
mod Tests
use corograph.Base.{
  ℕ, zero, suc, ◌+◌, ◌≡◌, Bool, true, false, List, [], ◌∷◌, ◌++◌, map, u32, shr, ltb, ◌==◌,
  if◌then◌else◌, bit_and, bit_or,
}
use corograph.Partition.{VtxArr, at, max_bit, dw_half, min_hfup}
use corograph.Partition.Fill.Stored.{Pair}

-- `part_wrap`: an edge with the distance of its source, or a run in `highedge` with it.
pub record PartWrap : Type 0 where
  pub e : ℕ
  pub w : ℕ
  pub val : ℕ

-- `for (e = …; e < stop; e += 2)` over the pairs `arr[e], arr[e + 1]`.
unfoldable pub pairs_loop : ℕ → List ℕ → ℕ → ℕ → List Pair
pairs_loop zero arr e stop = []
pairs_loop (suc fuel) arr e stop =
    let rest = pairs_loop fuel arr (u32 (e + 2)) stop in
    if ltb e stop then (at arr e, at arr (u32 (e + 1))) ∷ rest else []

-- One `emplace_back` of `coro_scatter`: the partition that it goes to, and the item.
unfoldable pub scatter_pair : ℕ → Pair → ℕ × PartWrap
scatter_pair dist (a, b) =
    if shr a 31 == 0 then (shr a 18, record { e = a; w = b; val = dist }) else (
      bit_and a dw_half,
      record { e = bit_or max_bit (shr (bit_and a min_hfup) 16); w = b; val = dist },
    )

-- What `coro_scatter` emplaces for a vertex, in order. The fuel is the number of words.
unfoldable pub scatter_vertex : List ℕ → VtxArr → ℕ → List (ℕ × PartWrap)
scatter_vertex pledge vtx dist = map (scatter_pair dist) (
    pairs_loop vtx.deg1 vtx.pe 0 vtx.deg1
    ++ pairs_loop vtx.deg2 pledge vtx.offset (u32 (vtx.offset + vtx.deg2)))

-- The edges that `coro_gather` relaxes for an item: destination, weight and source distance.
abbrev pub Relaxation : Type 0
Relaxation = ℕ × ℕ × ℕ

abbrev pub with_dist : ℕ → Pair → Relaxation
with_dist dist (dst, weight) = (dst, weight, dist)

unfoldable pub gather_item : List ℕ → PartWrap → List Relaxation
gather_item highedge item =
    if shr item.e 31 == 0
    then (item.e, item.w, item.val) ∷ []
    else (let deg = bit_and item.e dw_half in
        map (with_dist item.val) (pairs_loop deg highedge item.w (u32 (item.w + deg))))

unfoldable pub gather_items : List ℕ → List (ℕ × PartWrap) → List Relaxation
gather_items highedge [] = []
gather_items highedge ((pid, item) ∷ items) =
    gather_item highedge item ++ gather_items highedge items
