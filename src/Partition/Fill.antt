-- ===== src/Partition/Fill.antt =====
-- The last pass of `partition` in libcoro/include/galois/graphs/Partition_Graph.h: it stores the
-- runs of each vertex in its `vtxArr`, in `pledge` and in `highedge`.
pub mod Stored
pub mod Place
pub mod Store
pub mod Filling
pub mod Vertex
pub mod Pass
use corograph.Base.{
  ℕ, zero, suc, ◌+◌, ◌-◌, ◌*◌, ◌≡◌, List, [], ◌∷◌, u32, set, ltb, leb, if◌then◌else◌,
}
use corograph.Partition.{Csr, VtxArr, at, pl_d, in_d, sub32, header, part_log, part_num}
use corograph.Partition.Scan.{scan, part_of}
use corograph.Partition.Count.{Counts, count_pass, lay_out, out_sum}

-- The arrays that the pass writes, and its counters.
pub record Fill : Type 0 where
  pub pe : List ℕ
  pub inplace : ℕ
  pub edge : List ℕ
  pub outplace : ℕ
  pub high : List ℕ
  pub high_e : ℕ

-- A pair of words goes inline, or into `pledge` once the `vtxArr` is full.
unfoldable pub put : ℕ → ℕ → Fill → Fill
put a b s =
    if ltb s.inplace in_d
    then record s {
      pe = set (set s.pe s.inplace a) (u32 (s.inplace + 1)) b;
      inplace = u32 (u32 (s.inplace + 1) + 1);
    }
    else record s {
      edge = set (set s.edge s.outplace a) (u32 (s.outplace + 1)) b;
      outplace = u32 (u32 (s.outplace + 1) + 1);
    }

-- A pair of words goes into `highedge`.
unfoldable pub put_high : ℕ → ℕ → Fill → Fill
put_high a b s = record s {
  high = set (set s.high s.high_e a) (u32 (s.high_e + 1)) b;
  high_e = u32 (u32 (s.high_e + 1) + 1);
}

module _ (g : Csr) where
  -- `for (te = prev_e; te < e; te++)` over a short run, with `n` edges left.
  unfoldable pub store_low : ℕ → ℕ → Fill → Fill
  store_low zero te s = s
  store_low (suc n) te s = store_low n (te + 1) (put (at g.ngh te) (at g.weight te) s)

  -- The same loop over a long run.
  unfoldable pub store_high : ℕ → ℕ → Fill → Fill
  store_high zero te s = s
  store_high (suc n) te s = store_high n (te + 1) (put_high (at g.ngh te) (at g.weight te) s)

  -- The body of the loop at the end of a run.
  unfoldable pub fill_run : ℕ → ℕ → ℕ → Fill → Fill
  fill_run prev_e e prev_p s =
      let deg = sub32 e prev_e in
      if leb deg pl_d
      then store_low (e - prev_e) prev_e s
      else store_high (e - prev_e) prev_e (put (header deg prev_p) s.high_e s)

  module _ (plog : ℕ) where
    -- The pass over one vertex.
    unfoldable pub fill_vertex : ℕ → VtxArr → Fill → Fill
    fill_vertex v vtx s =
        let start = at g.offset v in
        let stop = at g.offset (v + 1) in
        scan g.ngh plog stop fill_run (stop - start) start start (part_of g.ngh plog stop start)
          (record s { pe = vtx.pe; inplace = 0 })

    -- `for (v = …; v < numV; v++)` over the vertices that are left.
    unfoldable pub fill_pass : ℕ → List VtxArr → Fill → List VtxArr × Fill
    fill_pass v [] s = ([], s)
    fill_pass v (vtx ∷ vs) s =
        let s' = fill_vertex v vtx s in
        let (rest, end) = fill_pass (v + 1) vs s' in (record vtx { pe = s'.pe } ∷ rest, end)

-- The fields of `graph` that `partition` sets.
pub record Parts : Type 0 where
  pub plog : ℕ
  pub pnum : ℕ
  pub high_enum : ℕ
  pub pl_enum : ℕ
  pub plgraph : List VtxArr
  pub pledge : List ℕ
  pub highedge : List ℕ

-- `partition(G, numthread)`. The memory of `new uint32[n]` is `words n`, that of `aligned_alloc` is
-- `blank`, and `high_enum`, `pl_enum` are what the fields hold before the call.
unfoldable pub partition :
    (words : ℕ → List ℕ) (blank : ℕ → VtxArr) (g : Csr) (numthread high_enum pl_enum : ℕ) → Parts
partition words blank g numthread high_enum pl_enum =
    let plog = part_log g.num_v numthread in
    let c = count_pass g plog g.num_v 0 high_enum pl_enum in
    let vs = lay_out blank c.vdegs 0 0 in
    let s : Fill = record {
      pe = [];
      inplace = 0;
      edge = words (out_sum c.vdegs 0);
      outplace = 0;
      high = words c.high_enum;
      high_e = 0;
    } in
    let (plgraph, end) = fill_pass g plog 0 vs s in
    record {
      plog = plog;
      pnum = part_num g.num_v plog;
      high_enum = c.high_enum;
      pl_enum = c.pl_enum;
      plgraph = plgraph;
      pledge = end.edge;
      highedge = end.high;
    }
