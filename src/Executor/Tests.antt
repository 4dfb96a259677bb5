-- ===== src/Executor/Tests.antt =====
-- The theorems about Partition_Graph.h and Executor_ForEach.h at a small graph.
use corograph.Base.{ℕ, ◌≡◌, refl, List, [], ◌∷◌, replicate}
use corograph.Partition.{Csr, VtxArr, part_log, log_loop, header}
use corograph.Partition.Scan.{scan}
use corograph.Partition.Count.{count_run, count_vertex, count_pass, lay_out, out_sum}
use corograph.Partition.Fill.{
  put, put_high, store_low, store_high, fill_run, fill_vertex, fill_pass, partition, Parts,
}

-- Vertex 0 has three edges into partition 1 and two into partition 2, and vertex 1 has one edge.
abbrev sample : Csr
sample = record {
  num_v = 3;
  num_e = 6;
  offset = 0 ∷ 5 ∷ 6 ∷ 6 ∷ [];
  ngh = 1 ∷ 1 ∷ 1 ∷ 2 ∷ 2 ∷ 0 ∷ [];
  weight = 10 ∷ 11 ∷ 12 ∷ 13 ∷ 14 ∷ 15 ∷ [];
}

abbrev zeros : ℕ → List ℕ
zeros n = replicate n 0

abbrev blank : ℕ → VtxArr
blank v = record { deg1 = 0; deg2 = 0; pe = replicate 14 7; offset = 99 }

abbrev parts : Parts
parts = partition zeros blank sample 2 0 0

-- The first `vtxArr` of the sample: the header of the long run, its start, and the short run.
abbrev first_vertex : VtxArr
first_vertex = record {
  deg1 = 6;
  deg2 = 0;
  pe = header 3 1 ∷ 0 ∷ 2 ∷ 13 ∷ 2 ∷ 14 ∷ 7 ∷ 7 ∷ 7 ∷ 7 ∷ 7 ∷ 7 ∷ 7 ∷ 7 ∷ [];
  offset = 99;
}

part_log-sample : part_log 3 2 ≡ 0
unfolding part_log log_loop
part_log-sample = refl

highedge_stored : parts.highedge ≡ 1 ∷ 10 ∷ 1 ∷ 11 ∷ 1 ∷ 12 ∷ []
unfolding partition part_log log_loop count_pass count_vertex count_run scan lay_out out_sum
    fill_pass fill_vertex fill_run put put_high store_low store_high
highedge_stored = refl
