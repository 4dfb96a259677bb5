-- ===== src/Partition/Fill/Vertex.antt =====
-- The last pass of `partition` over all the runs of one vertex
-- (libcoro/include/galois/graphs/Partition_Graph.h).
use corograph.Base.{
  ℕ, zero, suc, ◌+◌, ◌-◌, ◌^◌, ◌<◌, ◌≤◌, ◌≡◌, refl, sym, ap, ◌∙◌, List, [], ◌∷◌, ◌++◌, append-nil,
  append_assoc, length, take, arith,
}
use corograph.Partition.{Csr, VtxArr, in_d, at, max_bit}
use corograph.Partition.Scan.{
  Run, each_run, Tiles, vertex_runs, vertex_runs-Tiles, scan-eq-each_run, part_of,
}
use corograph.Partition.Count.{run_words, run_high, words_of, high_of}
use corograph.Partition.Fill.{Fill, fill_run, fill_vertex}
use corograph.Partition.Fill.Stored.{Pair}
use corograph.Partition.Fill.Store.{edges_from}
use corograph.Partition.Fill.Filling.{Filling, Advance, Fits, run_edges, fill_run-Filling}

pub Advance-trans : {s t u : Fill} (h k : ℕ) → Advance s t h → Advance t u k → Advance s u (h + k)
Advance-trans {s} h k p q = record {
  edge_size = q.edge_size ∙ p.edge_size;
  high_size = q.high_size ∙ p.high_size;
  high_e_at = omega (arith, p.high_e_at, q.high_e_at);
  high_has = (
    p.high_has.0 ++ q.high_has.0,
    q.high_has.1
        ∙ ap (λ t. t ++ q.high_has.0) p.high_has.1
        ∙ append_assoc (take s.high_e s.high) p.high_has.0 q.high_has.0,
  );
}

-- The runs that the header word can describe: fewer than 2^14 edges, and a partition below 2^16.
abbrev pub IsPackable : List Run → Type 0
IsPackable [] = Unit {0}
IsPackable (r ∷ rs) = (r.stop - r.first < 2 ^ 14) × (r.part < 2 ^ 16) × IsPackable rs

module _ (g : Csr) where
  edges_from-append :
      (a m n : ℕ) → edges_from g a m ++ edges_from g (a + m) n ≡ edges_from g a (m + n)
  edges_from-append a zero n =
      let e : a + 0 ≡ a = omega arith in let f : 0 + n ≡ n = omega arith in rw (e, f)
  edges_from-append a (suc m) n =
      let e : a + suc m ≡ a + 1 + m = omega arith in
      let f : suc m + n ≡ suc (m + n) = omega arith in
      rw (e, f) (ap (λ t. (at g.ngh a, at g.weight a) ∷ t) (edges_from-append (a + 1) m n))

  edges_split :
      (a b c : ℕ)
      → a ≤ b
      → b ≤ c
      → edges_from g a (b - a) ++ edges_from g b (c - b) ≡ edges_from g a (c - a)
  edges_split a b c h k =
      let e : a + (b - a) ≡ b = omega arith in
      let f : b - a + (c - b) ≡ c - a = omega arith in
      rw (e, f) at (edges_from-append a (b - a) (c - b))

  module _ (plog stop : ℕ) (ids : (k : ℕ) → k < stop → at g.ngh k < max_bit) where
    Tiles-le : (a : ℕ) (rs : List Run) → Tiles g.ngh plog stop a rs → a ≤ stop
    Tiles-le a [] t = omega arith
    Tiles-le a (r ∷ rs) t = omega arith

    each_run-Filling :
        (before : List ℕ) (rs : List Run) (a : ℕ) (s : Fill) (es : List Pair) (words : ℕ)
        → stop < 2 ^ 32
        → Filling before s es words
        → Tiles g.ngh plog stop a rs
        → IsPackable rs
        → length before + words + words_of rs ≤ length s.edge + in_d
        → s.high_e + high_of rs ≤ length s.high
        → let t = each_run (fill_run g) rs s in
          Filling before t (es ++ edges_from g a (stop - a)) (words + words_of rs)
          × Advance s t (high_of rs)
    unfolding each_run
    each_run-Filling before [] a s es words big h tiles pack room high_room =
        let e : stop - a ≡ 0 = omega arith in
        let f : words + 0 ≡ words = omega arith in
        rw (e, f, append-nil es)
          (
            h,
            record {
              edge_size = refl;
              high_size = refl;
              high_e_at = omega arith;
              high_has = ([], sym (append-nil (take s.high_e s.high)));
            },
          )
    each_run-Filling before (r ∷ rs) a s es words big h tiles pack room high_room =
        let (first, lt, le, same, part, rest) = tiles in
        let fits : Fits g r = record {
          nonempty = omega arith;
          small = omega arith;
          short = pack.0;
          part_small = pack.1;
          ids = λ k lo hi. ids k (omega arith);
        } in
        let (h1, adv1) =
          fill_run-Filling g before s es words r h fits (omega arith) (omega arith) in
        let t = fill_run g r.first r.stop r.part s in
        let (h2, adv2) =
          each_run-Filling before rs r.stop t (es ++ run_edges g r) (words + run_words r) big h1
            rest pack.2 (omega (arith, adv1.edge_size))
            (omega (arith, adv1.high_size, adv1.high_e_at)) in
        let e : words + run_words r + words_of rs ≡ words + words_of (r ∷ rs) = omega arith in
        let f : (es ++ run_edges g r) ++ edges_from g r.stop (stop - r.stop)
            ≡ es ++ edges_from g a (stop - a) =
          append_assoc es (run_edges g r) (edges_from g r.stop (stop - r.stop))
          ∙ ap (λ t. es ++ t) (rw first (edges_split a r.stop stop (omega arith) le)) in
        (rw e at (rw f at h2), Advance-trans (run_high r) (high_of rs) adv1 adv2)

  -- The edges of a vertex in CSR order.
  abbrev pub vertex_edges : ℕ → List Pair
  vertex_edges v = edges_from g (at g.offset v) (at g.offset (v + 1) - at g.offset v)

  module _ (plog : ℕ) where
    abbrev pub runs_of : ℕ → List Run
    runs_of v = vertex_runs g.ngh plog (at g.offset (v + 1)) (at g.offset v)

    pub fill_vertex-Filling :
        (v : ℕ) (vtx : VtxArr) (before : List ℕ) (s : Fill)
        → at g.offset v ≤ at g.offset (v + 1)
        → at g.offset (v + 1) < 2 ^ 32 - 1
        → ((k : ℕ) → k < at g.offset (v + 1) → at g.ngh k < max_bit)
        → IsPackable (runs_of v)
        → length vtx.pe ≡ in_d
        → take s.outplace s.edge ≡ before
        → s.outplace ≡ length before
        → length s.edge < 2 ^ 32
        → s.high_e ≤ length s.high
        → length s.high < 2 ^ 32
        → length before + words_of (runs_of v) ≤ length s.edge + in_d
        → s.high_e + high_of (runs_of v) ≤ length s.high
        → let t = fill_vertex g plog v vtx s in
          Filling before t (vertex_edges v) (words_of (runs_of v))
          × Advance s t (high_of (runs_of v))
    unfolding fill_vertex
    fill_vertex-Filling v vtx before s le big ids pack pe has at_end small hf hs room high_room =
        let start = at g.offset v in
        let stop = at g.offset (v + 1) in
        let s0 = record s { pe = vtx.pe; inplace = 0 } in
        let begin : Filling before s0 [] 0 = record {
          pairs = [];
          placed = record {
            inner = [];
            outer = [];
            all = refl;
            pe_size = pe;
            inplace_at = omega arith;
            inplace_le = omega arith;
            overflow = λ _. refl;
            pe_has = refl;
            outplace_at = omega (arith, at_end);
            edge_has = has ∙ sym (append-nil before);
            edge_small = small;
          };
          stored = refl;
          counted = omega arith;
          high_fits = hf;
          high_small = hs;
        } in
        let (h, adv) =
          each_run-Filling plog stop ids before (runs_of v) start s0 [] 0 (omega arith) begin
            (vertex_runs-Tiles g.ngh plog stop start big le) pack (omega arith) high_room in
        let e : 0 + words_of (runs_of v) ≡ words_of (runs_of v) = omega arith in
        rw
          (scan-eq-each_run g.ngh plog stop (fill_run g) (stop - start) start start
            (part_of g.ngh plog stop start) s0)
          (
            rw e at h,
            record {
              edge_size = adv.edge_size;
              high_size = adv.high_size;
              high_e_at = adv.high_e_at;
              high_has = adv.high_has;
            },
          )
