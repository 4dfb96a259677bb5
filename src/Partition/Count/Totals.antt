-- ===== src/Partition/Count/Totals.antt =====
-- What the counting pass of `partition` and its layout add up to
-- (libcoro/include/galois/graphs/Partition_Graph.h).
use corograph.Base.{
  ℕ, zero, suc, ◌+◌, ◌-◌, ◌*◌, ◌^◌, ◌<◌, ◌≤◌, ◌≡◌, refl, ap, ◌∙◌, List, [], ◌∷◌, max, arith, u32,
  Bool-cases, inl, inr, leb,
}
use corograph.Partition.{Csr, in_d, pl_d, at, max_bit, sub32}
use corograph.Partition.Scan.{
  Run, each_run, Tiles, vertex_runs, vertex_runs-Tiles, scan-eq-each_run, part_of,
}
use corograph.Partition.Count.{
  Count, count_run, count_vertex, count_pass, run_words, run_high, words_of, high_of,
}

Count_eq : {s t : Count} → s.vdeg ≡ t.vdeg → s.high_enum ≡ t.high_enum → s ≡ t
Count_eq p q = λ i. record { vdeg = p i; high_enum = q i }

-- Adding up `2 * deg` without wrapping.
count_run_lem :
    (r : Run) (s : Count)
    → r.first < r.stop
    → r.stop < 2 ^ 31
    → s.vdeg + run_words r < 2 ^ 32
    → s.high_enum + run_high r < 2 ^ 32
    → count_run r.first r.stop r.part s
      ≡ record { vdeg = s.vdeg + run_words r; high_enum = s.high_enum + run_high r }
unfolding count_run
count_run_lem r s h k w hi =
    let n = r.stop - r.first in
    let deg : sub32 r.stop r.first ≡ n = omega arith in
    elim (Bool-cases (leb n pl_d)) [
      | inl short ↦ rw (deg, short) (Count_eq (omega (arith, rw short at w)) (omega arith))
      | inr long ↦
          rw (deg, long) (Count_eq (omega (arith, rw long at w)) (omega (arith, rw long at hi)))
    ]

pub words_of-le :
    (ngh : List ℕ) (plog stop a : ℕ) (rs : List Run)
    → Tiles ngh plog stop a rs
    → (words_of rs ≤ 2 * (stop - a)) × (high_of rs ≤ 2 * (stop - a))
words_of-le ngh plog stop a [] t = omega arith
words_of-le ngh plog stop a (r ∷ rs) (first, lt, le, same, part, rest) =
    let (w, h) = words_of-le ngh plog stop r.stop rs rest in ground arith

module _ (ngh : List ℕ) (plog stop : ℕ) (big : stop < 2 ^ 31) where
  each_run-count :
      (rs : List Run) (a : ℕ) (s : Count)
      → Tiles ngh plog stop a rs
      → s.vdeg + words_of rs < 2 ^ 32
      → s.high_enum + high_of rs < 2 ^ 32
      → each_run count_run rs s
        ≡ record { vdeg = s.vdeg + words_of rs; high_enum = s.high_enum + high_of rs }
  unfolding each_run
  each_run-count [] a s t w h = Count_eq (omega arith) (omega arith)
  each_run-count (r ∷ rs) a s (first, lt, le, same, part, rest) w h =
      rw (count_run_lem r s (omega arith) (omega arith) (omega arith) (omega arith)) (
        each_run-count rs r.stop _ rest (omega arith) (omega arith)
        ∙ Count_eq (omega arith) (omega arith))

module _ (g : Csr) (plog : ℕ) where
  abbrev runs_of : ℕ → List Run
  runs_of v = vertex_runs g.ngh plog (at g.offset (v + 1)) (at g.offset v)

  -- The words of `n` vertices from `v` on.
  abbrev pub word_list : ℕ → ℕ → List ℕ
  word_list zero v = []
  word_list (suc n) v = words_of (runs_of v) ∷ word_list n (v + 1)

  -- The words of `highedge` that `n` vertices from `v` on take.
  abbrev pub high_total : ℕ → ℕ → ℕ
  high_total zero v = 0
  high_total (suc n) v = high_of (runs_of v) + high_total n (v + 1)

  -- What `partition` relies on: CSR offsets that grow up to `numE`, fewer than 2^31 edges,
  -- destinations below 2^31, and at most 2^16 - 1 words of a vertex outside its `vtxArr`.
  pub record IsInput : Type 0 where
    pub grows : (v : ℕ) → v < g.num_v → at g.offset v ≤ at g.offset (v + 1)
    pub within : (v : ℕ) → v < g.num_v → at g.offset (v + 1) ≤ g.num_e
    pub edges_small : g.num_e < 2 ^ 31
    pub ids : (k : ℕ) → k < g.num_e → at g.ngh k < max_bit
    pub outer_small : (v : ℕ) → v < g.num_v → words_of (runs_of v) < 2 ^ 16 + in_d

  module _ (ok : IsInput) where
    vertex-Tiles :
        (v : ℕ) → v < g.num_v → Tiles g.ngh plog (at g.offset (v + 1)) (at g.offset v) (runs_of v)
    vertex-Tiles v h =
        vertex_runs-Tiles g.ngh plog (at g.offset (v + 1)) (at g.offset v)
          (omega (arith, ok.within v h, ok.edges_small)) (ok.grows v h)

    -- The words of `highedge` never exceed twice the edges.
    pub high_total-le :
        (n v : ℕ)
        → v + n ≤ g.num_v
        → high_total n v + 2 * at g.offset v ≤ 2 * max g.num_e (at g.offset v)
    high_total-le zero v h = omega arith
    high_total-le (suc n) v h = omega (
      arith,
      high_total-le n (v + 1) (omega arith),
      ok.grows v (omega arith),
      ok.within v (omega arith),
      (words_of-le g.ngh plog (at g.offset (v + 1)) (at g.offset v) (runs_of v)
          (vertex-Tiles v (omega arith))).1,
    )

    count_vertex_lem :
        (v high_enum : ℕ)
        → v < g.num_v
        → high_enum + high_of (runs_of v) < 2 ^ 32
        → count_vertex g plog v high_enum
          ≡ record { vdeg = words_of (runs_of v); high_enum = high_enum + high_of (runs_of v) }
    unfolding count_vertex
    count_vertex_lem v high_enum h k =
        let start = at g.offset v in
        let stop = at g.offset (v + 1) in
        let small : stop < 2 ^ 31 = omega (arith, ok.within v h, ok.edges_small) in
        let tiles = vertex-Tiles v h in
        scan-eq-each_run g.ngh plog stop count_run (stop - start) start start
          (part_of g.ngh plog stop start) (record { vdeg = 0; high_enum = high_enum })
        ∙ each_run-count g.ngh plog stop small (runs_of v) start
            (record { vdeg = 0; high_enum = high_enum }) tiles
            (omega (arith, (words_of-le g.ngh plog stop start (runs_of v) tiles).0)) k
        ∙ Count_eq (omega arith) refl

    -- The counting pass finds the words of each vertex and those of `highedge`.
    pub count_pass_lem :
        (n v high_enum pl_enum : ℕ)
        → v + n ≤ g.num_v
        → high_enum + high_total n v < 2 ^ 32
        → ((count_pass g plog n v high_enum pl_enum).vdegs ≡ word_list n v)
          × ((count_pass g plog n v high_enum pl_enum).high_enum ≡ high_enum + high_total n v)
    unfolding count_pass
    count_pass_lem zero v high_enum pl_enum h k = (refl, omega arith)
    count_pass_lem (suc n) v high_enum pl_enum h k =
        let w = words_of (runs_of v) in
        let high' = high_enum + high_of (runs_of v) in
        let (p, q) =
          count_pass_lem n (v + 1) high' (u32 (pl_enum + w)) (omega arith) (omega arith) in
        rw (count_vertex_lem v high_enum (omega arith) (omega arith))
          (ap (λ t. w ∷ t) p, q ∙ omega arith)
