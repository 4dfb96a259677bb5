-- ===== src/Sssp.antt =====
-- Single-source shortest paths, app/sssp/crg-sssp.cpp: the functions of `SSSP_F`, and the work that
-- the executor of libcoro/include/galois/runtime/Executor_ForEach.h does with them. The executor
-- orders the work by priority and splits it over threads, where each partition has one owner. The
-- steps here take any pending work at any time, so every such order is a sequence of them.
pub mod Walk
pub mod Invariant
pub mod Relax
pub mod Correct
pub mod Terminates
mod Tests
use mathlib.Core.List.{Memᴰ}
use corograph.Base.{
  ℕ, zero, suc, ◌+◌, ◌-◌, ◌^◌, ◌≡◌, Bool, true, false, List, [], ◌∷◌, ◌++◌, map, u32, ltb, set,
  replicate, length, if◌then◌else◌,
}
use corograph.Partition.{at}
use corograph.Partition.Fill.Stored.{Pair}
use corograph.Executor.{Relaxation, with_dist}

-- `MAX_NUM`, the distance of a vertex that is not reached.
abbrev pub max_num : ℕ
max_num = 2 ^ 32 - 1

-- `vertex_warp`.
pub record VertexWarp : Type 0 where
  pub vid : ℕ
  pub dist : ℕ

-- `filterFunc`: a better distance is known already.
unfoldable pub filter_func : List ℕ → ℕ → ℕ → Bool
filter_func vdata src dis = ltb (at vdata src) dis

-- `gatherFunc`: the distances behind it, and whether it improved one.
unfoldable pub gather_func : List ℕ → ℕ → ℕ → List ℕ × Bool
gather_func vdata update_val dest_id =
    if ltb update_val (at vdata dest_id)
    then (set vdata dest_id update_val, true)
    else (vdata, false)

-- `applyWeight`.
unfoldable pub apply_weight : ℕ → ℕ → ℕ
apply_weight weight update_val = u32 (update_val + weight)

-- `pushFunc`.
unfoldable pub push_func : ℕ → ℕ → VertexWarp
push_func dst newdis = record { vid = dst; dist = newdis }

-- The distances, the vertices to scatter and the edges to relax.
pub record State : Type 0 where
  pub vdata : List ℕ
  pub items : List VertexWarp
  pub relaxations : List Relaxation

-- `main`: every distance is `MAX_NUM` but that of the source, which is the first item.
unfoldable pub init : ℕ → ℕ → State
init num_v source = record {
  vdata = set (replicate num_v max_num) source 0;
  items = record { vid = source; dist = 0 } ∷ [];
  relaxations = [];
}

-- `doScatter` and `coro_scatter` for one item, where `edges` are those of each vertex.
unfoldable pub scatter : (ℕ → List Pair) → VertexWarp → State → State
scatter edges item s =
    if filter_func s.vdata item.vid item.dist
    then s
    else record s { relaxations = s.relaxations ++ map (with_dist item.dist) (edges item.vid) }

-- `coro_gather` for one edge.
unfoldable pub gather : Relaxation → State → State
gather (dst, weight, val) s =
    let update = apply_weight weight val in
    let (vdata, improved) = gather_func s.vdata update dst in
    if improved then record s { vdata = vdata; items = s.items ++ push_func dst update ∷ [] } else s

-- One step takes a pending item or edge away and does its work.
pub data Step (edges : ℕ → List Pair) (s : State) : State → Type 0 where
  scattered :
      (before after : List VertexWarp) (item : VertexWarp)
      → s.items ≡ before ++ item ∷ after
      → Step edges s (scatter edges item (record s { items = before ++ after }))
  gathered :
      (before after : List Relaxation) (r : Relaxation)
      → s.relaxations ≡ before ++ r ∷ after
      → Step edges s (gather r (record s { relaxations = before ++ after }))

pub data Reach (edges : ℕ → List Pair) (s : State) : State → Type 0 where
  here : Reach edges s s
  next : {t u : State} → Reach edges s t → Step edges t u → Reach edges s u
