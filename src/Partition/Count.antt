-- ===== src/Partition/Count.antt =====
-- The first two passes of `partition` in libcoro/include/galois/graphs/Partition_Graph.h: the words
-- that each vertex and `highedge` need, and the layout of the `vtxArr`s over `pledge`.
pub mod Totals
use corograph.Base.{ℕ, zero, suc, ◌+◌, ◌-◌, ◌*◌, List, [], ◌∷◌, u32, u16, ltb, leb, if◌then◌else◌}
use corograph.Partition.{Csr, VtxArr, at, pl_d, in_d, sub32}
use corograph.Partition.Scan.{Run, scan, part_of}

pub record Count : Type 0 where
  pub vdeg : ℕ
  pub high_enum : ℕ

-- The body of the counting loop at the end of a run.
unfoldable pub count_run : ℕ → ℕ → ℕ → Count → Count
count_run prev_e e prev_p s =
    let deg = sub32 e prev_e in
    if leb deg pl_d
    then record s { vdeg = u32 (s.vdeg + u32 (2 * deg)) }
    else record { vdeg = u32 (s.vdeg + 2); high_enum = u32 (s.high_enum + u32 (2 * deg)) }

-- What the counting pass leaves behind: `vdeg`, `highEnum` and `plEnum`.
pub record Counts : Type 0 where
  pub vdegs : List ℕ
  pub high_enum : ℕ
  pub pl_enum : ℕ

module _ (g : Csr) (plog : ℕ) where
  -- The counting loop of one vertex.
  unfoldable pub count_vertex : ℕ → ℕ → Count
  count_vertex v high_enum =
      let start = at g.offset v in
      let stop = at g.offset (v + 1) in
      scan g.ngh plog stop count_run (stop - start) start start (part_of g.ngh plog stop start)
        (record { vdeg = 0; high_enum = high_enum })

  -- `for (v = …; v < numV; v++)`, with `n` vertices left.
  unfoldable pub count_pass : ℕ → ℕ → ℕ → ℕ → Counts
  count_pass zero v high_enum pl_enum = record {
    vdegs = [];
    high_enum = high_enum;
    pl_enum = pl_enum;
  }
  count_pass (suc n) v high_enum pl_enum =
      let c = count_vertex v high_enum in
      let rest = count_pass n (v + 1) c.high_enum (u32 (pl_enum + c.vdeg)) in
      record rest { vdegs = c.vdeg ∷ rest.vdegs }

-- One step of the layout: the inline words, and the place of the others in `pledge`.
unfoldable pub lay_out_vertex : ℕ → ℕ → VtxArr → VtxArr
lay_out_vertex vdeg outsum vtx =
    if ltb in_d vdeg
    then record vtx { deg1 = in_d; deg2 = u16 (sub32 vdeg in_d); offset = outsum }
    else record vtx { deg1 = u16 vdeg; deg2 = 0 }

-- The layout pass; `blank` is the memory that `aligned_alloc` returns.
unfoldable pub lay_out : (ℕ → VtxArr) → List ℕ → ℕ → ℕ → List VtxArr
unfolding lay_out_vertex
lay_out blank [] v outsum = []
lay_out blank (d ∷ ds) v outsum =
    let vtx = lay_out_vertex d outsum (blank v) in
    vtx ∷ lay_out blank ds (v + 1) (if ltb in_d d then u32 (outsum + vtx.deg2) else outsum)

-- The length of `pledge` after the layout pass.
unfoldable pub out_sum : List ℕ → ℕ → ℕ
out_sum [] outsum = outsum
out_sum (d ∷ ds) outsum =
    out_sum ds (if ltb in_d d then u32 (outsum + u16 (sub32 d in_d)) else outsum)

-- The words of a run in the vertex's own storage.
abbrev pub run_words : Run → ℕ
run_words r = if leb (r.stop - r.first) pl_d then 2 * (r.stop - r.first) else 2

-- The words of a run in `highedge`.
abbrev pub run_high : Run → ℕ
run_high r = if leb (r.stop - r.first) pl_d then 0 else 2 * (r.stop - r.first)

abbrev pub words_of : List Run → ℕ
words_of [] = 0
words_of (r ∷ rs) = run_words r + words_of rs

abbrev pub high_of : List Run → ℕ
high_of [] = 0
high_of (r ∷ rs) = run_high r + high_of rs
