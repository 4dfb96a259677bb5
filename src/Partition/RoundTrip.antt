-- ===== src/Partition/RoundTrip.antt =====
-- `partition` of libcoro/include/galois/graphs/Partition_Graph.h as a whole: its arrays hold the
-- edges of every vertex, and are exactly as long as the counting pass says.
use corograph.Base.{
  ℕ, zero, suc, ◌+◌, ◌-◌, ◌*◌, ◌^◌, ◌<◌, ◌≤◌, ◌≡◌, refl, ◌∙◌, subst, List, [], ◌++◌, length, take,
  drop, take-append-drop, arith, u32, u16, ltb, if◌then◌else◌, max,
}
use native.Mathlib.Decide.{dec_lt}
use corograph.Base.{lt→ltb, le→ltb}
use corograph.Partition.{Csr, VtxArr, at, in_d, part_log, sub32}
use corograph.Partition.Scan.{vertex_runs-Tiles}
use corograph.Partition.Count.{words_of, count_pass, lay_out, out_sum}
use corograph.Partition.Count.Totals.{
  IsInput, word_list, high_total, high_total-le, count_pass_lem, words_of-le,
}
use corograph.Partition.Fill.{Fill, fill_pass, Parts, partition}
use corograph.Partition.Fill.Vertex.{IsPackable, runs_of}
use corograph.Partition.Fill.Pass.{
  VerticesStored, VerticesStored-grow, fill_pass-Passed, outer_total,
}

module _ (g : Csr) (plog : ℕ) (blank : ℕ → VtxArr) (ok : IsInput g plog) where
  -- The words of `pledge` never exceed twice the edges.
  outer_total-le :
      (n v : ℕ)
      → v + n ≤ g.num_v
      → outer_total g plog blank n v + 2 * at g.offset v ≤ 2 * max g.num_e (at g.offset v)
  outer_total-le zero v h = omega arith
  outer_total-le (suc n) v h = omega (
    arith,
    outer_total-le n (v + 1) (omega arith),
    ok.grows v (omega arith),
    ok.within v (omega arith),
    (words_of-le g.ngh plog (at g.offset (v + 1)) (at g.offset v) (runs_of g plog v) (
        vertex_runs-Tiles g.ngh plog (at g.offset (v + 1)) (at g.offset v)
          (omega (arith, ok.within v (omega arith), ok.edges_small)) (ok.grows v (omega arith)))).0,
  )

  -- The layout pass asks for as many words of `pledge` as the vertices need.
  out_sum_lem :
      (n v o : ℕ)
      → v + n ≤ g.num_v
      → o + outer_total g plog blank n v < 2 ^ 32
      → out_sum (word_list g plog n v) o ≡ o + outer_total g plog blank n v
  unfolding out_sum
  out_sum_lem zero v o h small = omega arith
  out_sum_lem (suc n) v o h small =
      let w = words_of (runs_of g plog v) in
      let wide = ok.outer_small v (omega arith) in
      let next : (if ltb in_d w then u32 (o + u16 (sub32 w in_d)) else o) ≡ o + (w - in_d) =
        elim (dec_lt in_d w) [
          | yes big ↦ rw (lt→ltb in_d w big) (omega arith)
          | no fits ↦ rw (le→ltb in_d w (omega arith)) (omega arith)
        ] in
      rw (next, out_sum)
        (out_sum_lem n (v + 1) (o + (w - in_d)) (omega arith) (omega arith) ∙ omega arith)

-- What the theorems about `partition` ask of the graph, with `plog` the logarithm that it computes.
pub record IsGraph (g : Csr) (numthread : ℕ) : Type 0 where
  pub input : IsInput g (part_log g.num_v numthread)
  pub some_vertex : 0 < g.num_v
  pub packable : (v : ℕ) → v < g.num_v → IsPackable (runs_of g (part_log g.num_v numthread) v)

module _ (words : ℕ → List ℕ) (blank : ℕ → VtxArr) (words_size : (n : ℕ) → length (words n) ≡ n)
    (blank_size : (v : ℕ) → length (blank v).pe ≡ in_d) (g : Csr) (numthread pl_enum : ℕ) where
  -- The state of the last pass, in terms of the counts.
  abbrev start_fill : ℕ → ℕ → Fill
  start_fill o h = record {
    pe = [];
    inplace = 0;
    edge = words o;
    outplace = 0;
    high = words h;
    high_e = 0;
  }

  -- The arrays of `partition` hold every vertex, and their lengths are what the passes fill.
  pub record IsStored (p : Parts) : Type 0 where
    pub vertices :
        VerticesStored g (part_log g.num_v numthread) blank p.pledge p.highedge 0 p.plgraph
    pub count : length p.plgraph ≡ g.num_v
    pub high_size : length p.highedge ≡ p.high_enum
    pub edge_small : length p.pledge < 2 ^ 32
    pub high_small : length p.highedge < 2 ^ 32

  pub partition-IsStored :
      IsGraph g numthread → IsStored (partition words blank g numthread 0 pl_enum)
  unfolding partition
  partition-IsStored ok =
      let plog = part_log g.num_v numthread in
      let input = ok.input in
      let n = g.num_v in
      let o = outer_total g plog blank n 0 in
      let h = high_total g plog n 0 in
      let zero_in : at g.offset 0 ≤ g.num_e =
        omega (arith, input.grows 0 ok.some_vertex, input.within 0 ok.some_vertex) in
      let h_small : h < 2 ^ 32 =
        omega (arith, high_total-le g plog input n 0 (omega arith), input.edges_small) in
      let o_small : o < 2 ^ 32 =
        omega (arith, outer_total-le g plog blank input n 0 (omega arith), input.edges_small) in
      let (vdegs, high) = count_pass_lem g plog input n 0 0 pl_enum (omega arith) (omega arith) in
      let high' : (count_pass g plog n 0 0 pl_enum).high_enum ≡ h = high ∙ omega arith in
      let sum : out_sum (word_list g plog n 0) 0 ≡ o =
        out_sum_lem g plog blank input n 0 0 (omega arith) (omega arith) ∙ omega arith in
      let s = start_fill o h in
      let passed =
        fill_pass-Passed g plog blank input ok.packable blank_size n 0 [] s (omega arith) refl refl
          (omega (arith, words_size o)) (omega arith) (omega (arith, words_size h))
          (omega (arith, words_size o)) (omega (arith, words_size h)) in
      let r = fill_pass g plog 0 (lay_out blank (word_list g plog n 0) 0 0) s in
      let edge = r.1.edge in
      let high = r.1.high in
      rw (vdegs, high', sum)
        (record {
          vertices =
              subst (λ e. VerticesStored g plog blank e high 0 r.0)
                (take-append-drop r.1.outplace edge)
                (subst
                  (λ k.
                    VerticesStored g plog blank (take r.1.outplace edge ++ drop r.1.outplace edge) k
                      0 r.0)
                  (take-append-drop r.1.high_e high)
                  (VerticesStored-grow g plog blank (take r.1.outplace edge) (take r.1.high_e high)
                    (drop r.1.outplace edge) (drop r.1.high_e high) 0 r.0 passed.vertices));
          count = passed.count;
          high_size = passed.advance.high_size ∙ words_size h;
          edge_small = omega (arith, passed.advance.edge_size, words_size o);
          high_small = omega (arith, passed.advance.high_size, words_size h);
        })
