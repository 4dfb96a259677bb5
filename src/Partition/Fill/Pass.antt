-- ===== src/Partition/Fill/Pass.antt =====
-- The layout and the last pass of `partition` over all vertices
-- (libcoro/include/galois/graphs/Partition_Graph.h).
use corograph.Base.{
  ℕ, zero, suc, ◌+◌, ◌-◌, ◌*◌, ◌/◌, ◌^◌, ◌<◌, ◌≤◌, ◌≡◌, refl, sym, ap, ◌∙◌, subst, List, [], ◌∷◌,
  ◌++◌, append-nil, append_assoc, length, length-append, length-take, take, arith, u32, ltb,
  if◌then◌else◌, Bool-cases, lt→ltb, le→ltb, inl, inr, false, max,
}
use native.Mathlib.Decide.{dec_lt}
use corograph.Partition.{Csr, VtxArr, in_d}
use corograph.Partition.Count.{words_of, high_of, lay_out_vertex, lay_out}
use corograph.Partition.Count.Totals.{IsInput, word_list, high_total}
use corograph.Partition.Fill.{Fill, fill_vertex, fill_pass}
use corograph.Partition.Fill.Stored.{Pair, flat, AllStored, AllStored-grow}
use corograph.Partition.Fill.Filling.{Filling, Advance}
use corograph.Partition.Fill.Vertex.{
  Advance-trans, IsPackable, runs_of, vertex_edges, fill_vertex-Filling,
}

-- The edges `es` of a vertex are stored, where `pledge` begins with `edge` and `highedge` with
-- `high`: `deg1` words in the `vtxArr`, and `deg2` words of `pledge` from `offset` on.
pub record VertexStored (edge high : List ℕ) (vtx : VtxArr) (es : List Pair) : Type 0 where
  pub inner : List Pair
  pub outer : List Pair
  pub before : List ℕ
  pub after : List ℕ
  pub deg1_at : vtx.deg1 ≡ 2 * length inner
  pub deg2_at : vtx.deg2 ≡ 2 * length outer
  pub pe_size : length vtx.pe ≡ in_d
  pub inner_le : length inner ≤ 7
  pub pe_has : take (2 * length inner) vtx.pe ≡ flat inner
  pub edge_has : edge ≡ before ++ (flat outer ++ after)
  pub offset_at : 0 < vtx.deg2 → vtx.offset ≡ length before
  pub stored : AllStored high (inner ++ outer) es

pub VertexStored-grow :
    {edge high : List ℕ} {vtx : VtxArr} {es : List Pair} (more moreh : List ℕ)
    → VertexStored edge high vtx es
    → VertexStored (edge ++ more) (high ++ moreh) vtx es
VertexStored-grow {high} {es} more moreh h = record {
  inner = h.inner;
  outer = h.outer;
  before = h.before;
  after = h.after ++ more;
  deg1_at = h.deg1_at;
  deg2_at = h.deg2_at;
  pe_size = h.pe_size;
  inner_le = h.inner_le;
  pe_has = h.pe_has;
  edge_has =
      ap (λ t. t ++ more) h.edge_has
      ∙ append_assoc h.before (flat h.outer ++ h.after) more
      ∙ ap (λ t. h.before ++ t) (append_assoc (flat h.outer) h.after more);
  offset_at = h.offset_at;
  stored = AllStored-grow high moreh (h.inner ++ h.outer) es h.stored;
}

-- The layout of a vertex agrees with what the last pass stores for it.
layout_degrees :
    (w outsum inner outer : ℕ) (vtx : VtxArr)
    → w < 2 ^ 16 + in_d
    → 2 * (inner + outer) ≡ w
    → inner ≤ 7
    → (inner < 7 → outer ≡ 0)
    → ((lay_out_vertex w outsum vtx).deg1 ≡ 2 * inner)
      × ((lay_out_vertex w outsum vtx).deg2 ≡ 2 * outer)
      × (0 < (lay_out_vertex w outsum vtx).deg2 → (lay_out_vertex w outsum vtx).offset ≡ outsum)
      × ((lay_out_vertex w outsum vtx).pe ≡ vtx.pe)
unfolding lay_out_vertex
layout_degrees w outsum inner outer vtx small e le over = elim (dec_lt in_d w) [
  | yes big ↦
      let full : inner ≡ 7 = elim (dec_lt inner 7) [
        | yes lt ↦ absurd (omega (arith, over lt))
        | no ge ↦ omega arith
      ] in
      rw (lt→ltb in_d w big) (omega arith, omega arith, (λ _. refl), refl)
  | no fits ↦
      let no_outer : outer ≡ 0 = elim (dec_lt inner 7) [ yes lt ↦ over lt | no ge ↦ omega arith ] in
      rw (le→ltb in_d w (omega arith)) (omega arith, omega arith, (λ h. absurd (omega arith)), refl)
]

layout_none :
    (w outsum : ℕ) (vtx : VtxArr) → ltb in_d w ≡ false → (lay_out_vertex w outsum vtx).deg2 ≡ 0
unfolding lay_out_vertex
layout_none w outsum vtx fits = rw fits

pe-lay_out_vertex : (w outsum : ℕ) (vtx : VtxArr) → (lay_out_vertex w outsum vtx).pe ≡ vtx.pe
unfolding lay_out_vertex
pe-lay_out_vertex w outsum vtx = ground arith

-- The counters behind a vertex.
outer_count :
    {before : List ℕ} {t : Fill} {es : List Pair} {w : ℕ} (outsum : ℕ) (vtx : VtxArr)
    → w < 2 ^ 16 + in_d
    → Filling before t es w
    → ((lay_out_vertex w outsum vtx).deg2 ≡ 2 * (w / 2 - 7))
      × (t.outplace ≡ length before + 2 * (w / 2 - 7))
      × (2 * (w / 2 - 7) ≡ w - in_d)
outer_count {w} outsum vtx small h =
    let p = h.placed in
    let total : 2 * (length p.inner + length p.outer) ≡ w =
      omega (arith, h.counted, ap length p.all, length-append p.inner p.outer) in
    let (_, d2, _, _) =
      layout_degrees w outsum (length p.inner) (length p.outer) vtx small total p.inplace_le
        (λ lt. ap length (p.overflow lt)) in
    let outer : length p.outer ≡ w / 2 - 7 = elim (dec_lt (length p.inner) 7) [
      | yes lt ↦ omega (arith, total, ap length (p.overflow lt))
      | no ge ↦ omega (arith, total, p.inplace_le)
    ] in
    (rw (← outer) d2, rw (← outer) p.outplace_at, omega (arith, total, outer))

Filling-VertexStored :
    (before : List ℕ) (t : Fill) (es : List Pair) (w : ℕ) (vtx : VtxArr)
    → w < 2 ^ 16 + in_d
    → Filling before t es w
    → VertexStored
        (take t.outplace t.edge)
        (take t.high_e t.high)
        (record (lay_out_vertex w (length before) vtx) { pe = t.pe })
        es
Filling-VertexStored before t es w vtx small h =
    let p = h.placed in
    let (d1, d2, off, _) =
      layout_degrees w (length before) (length p.inner) (length p.outer) vtx small
        (omega (arith, h.counted, ap length p.all, length-append p.inner p.outer)) p.inplace_le
        (λ lt. ap length (p.overflow lt)) in
    record {
      inner = p.inner;
      outer = p.outer;
      before = before;
      after = [];
      deg1_at = d1;
      deg2_at = d2;
      pe_size = p.pe_size;
      inner_le = p.inplace_le;
      pe_has = rw (← p.inplace_at) p.pe_has;
      edge_has = p.edge_has ∙ ap (λ t. before ++ t) (sym (append-nil (flat p.outer)));
      offset_at = off;
      stored = subst (λ ps. AllStored (take t.high_e t.high) ps es) p.all h.stored;
    }

module _ (g : Csr) (plog : ℕ) (blank : ℕ → VtxArr) where
  -- The words that `n` vertices from `v` on take in `pledge`.
  abbrev pub outer_total : ℕ → ℕ → ℕ
  outer_total zero v = 0
  outer_total (suc n) v = words_of (runs_of g plog v) - in_d + outer_total n (v + 1)

  -- The vertices from `v` on are stored.
  abbrev pub VerticesStored : List ℕ → List ℕ → ℕ → List VtxArr → Type 0
  VerticesStored edge high v [] = Unit {0}
  VerticesStored edge high v (vtx ∷ vs) =
      VertexStored edge high vtx (vertex_edges g v) × VerticesStored edge high (v + 1) vs

  pub VerticesStored-grow :
      (edge high more moreh : List ℕ) (v : ℕ) (vs : List VtxArr)
      → VerticesStored edge high v vs
      → VerticesStored (edge ++ more) (high ++ moreh) v vs
  VerticesStored-grow edge high more moreh v [] h = tt
  VerticesStored-grow edge high more moreh v (vtx ∷ vs) h =
      (VertexStored-grow more moreh h.0, VerticesStored-grow edge high more moreh (v + 1) vs h.1)

  -- The place in `pledge` behind a vertex, as the layout computes it.
  layout_next :
      (w outsum outer : ℕ) (vtx : VtxArr)
      → (lay_out_vertex w outsum vtx).deg2 ≡ 2 * outer
      → outsum + 2 * outer < 2 ^ 32
      → (if ltb in_d w then u32 (outsum + (lay_out_vertex w outsum vtx).deg2) else outsum)
        ≡ outsum + 2 * outer
  layout_next w outsum outer vtx e small = elim (Bool-cases (ltb in_d w)) [
    | inl big ↦ rw (big, e) (omega arith)
    | inr fits ↦ rw fits (omega (arith, e, layout_none w outsum vtx fits))
  ]

  -- What the pass leaves behind.
  pub record Passed (n v : ℕ) (before : List ℕ) (s : Fill) (out : List VtxArr × Fill) : Type 0 where
    pub vertices :
        VerticesStored (take out.1.outplace out.1.edge) (take out.1.high_e out.1.high) v out.0
    pub advance : Advance s out.1 (high_total g plog n v)
    pub grown : List ℕ
    pub edge_has : take out.1.outplace out.1.edge ≡ before ++ grown
    pub count : length out.0 ≡ n
    pub outplace_at : out.1.outplace ≡ length before + outer_total n v

  lay_out_cons :
      (d : ℕ) (ds : List ℕ) (v outsum : ℕ)
      → lay_out blank (d ∷ ds) v outsum
        ≡ lay_out_vertex d outsum (blank v)
          ∷ lay_out blank ds (v + 1) (
              if ltb in_d d
              then u32 (outsum + (lay_out_vertex d outsum (blank v)).deg2)
              else outsum)
  unfolding lay_out
  lay_out_cons d ds v outsum = refl

  module _ (ok : IsInput g plog) (pack : (v : ℕ) → v < g.num_v → IsPackable (runs_of g plog v))
      (blank_size : (v : ℕ) → length (blank v).pe ≡ in_d) where
    Passed-cons :
        (n v : ℕ) (before : List ℕ) (s : Fill) (w : ℕ) (vtx : VtxArr) (t : Fill)
        {out : List VtxArr × Fill}
        → Filling before t (vertex_edges g v) w
        → w < 2 ^ 16 + in_d
        → Advance s t (high_of (runs_of g plog v))
        → length (take t.outplace t.edge) + in_d
          ≡ length before + max in_d (words_of (runs_of g plog v))
        → Passed n (v + 1) (take t.outplace t.edge) t out
        → Passed
            (suc n)
            v
            before
            s
            (record (lay_out_vertex w (length before) vtx) { pe = t.pe } ∷ out.0, out.1)
    Passed-cons n v before s w vtx t {out} filled wide adv size ih =
        let first = Filling-VertexStored before t (vertex_edges g v) w vtx wide filled in
        let (moreh, has_high) = ih.advance.high_has in
        record {
          vertices =
              (rw (ih.edge_has, has_high) (VertexStored-grow ih.grown moreh first), ih.vertices);
          advance =
              Advance-trans (high_of (runs_of g plog v)) (high_total g plog n (v + 1)) adv
                ih.advance;
          grown = flat filled.placed.outer ++ ih.grown;
          edge_has =
              ih.edge_has
              ∙ ap (λ t. t ++ ih.grown) filled.placed.edge_has
              ∙ append_assoc before (flat filled.placed.outer) ih.grown;
          count = ap suc ih.count;
          outplace_at = omega (arith, ih.outplace_at, size);
        }

    pub fill_pass-Passed :
        (n v : ℕ) (before : List ℕ) (s : Fill)
        → v + n ≤ g.num_v
        → take s.outplace s.edge ≡ before
        → s.outplace ≡ length before
        → length s.edge < 2 ^ 32
        → s.high_e ≤ length s.high
        → length s.high < 2 ^ 32
        → length before + outer_total n v ≤ length s.edge
        → s.high_e + high_total g plog n v ≤ length s.high
        → Passed n v before s
            (fill_pass g plog v (lay_out blank (word_list g plog n v) v (length before)) s)
    unfolding fill_pass lay_out
    fill_pass-Passed zero v before s h has at_end small hf hs room high_room = record {
      vertices = tt;
      advance = record {
        edge_size = refl;
        high_size = refl;
        high_e_at = omega arith;
        high_has = ([], sym (append-nil (take s.high_e s.high)));
      };
      grown = [];
      edge_has = has ∙ sym (append-nil before);
      count = refl;
      outplace_at = omega (arith, at_end);
    }
    fill_pass-Passed (suc n) v before s h has at_end small hf hs room high_room =
        let w = words_of (runs_of g plog v) in
        let vtx = lay_out_vertex w (length before) (blank v) in
        let (filled, adv) =
          fill_vertex-Filling g plog v vtx before s (ok.grows v (omega arith))
            (omega (arith, ok.within v (omega arith), ok.edges_small))
            (λ k lt. ok.ids k (omega (arith, ok.within v (omega arith)))) (pack v (omega arith))
            (ap length (pe-lay_out_vertex w (length before) (blank v)) ∙ blank_size v) has at_end
            small hf hs (omega arith) (omega arith) in
        let t = fill_vertex g plog v vtx s in
        let wide = ok.outer_small v (omega arith) in
        let (deg2, outplace, words) = outer_count (length before) (blank v) wide filled in
        let next = take t.outplace t.edge in
        let next_size : length next ≡ t.outplace =
          omega (arith, length-take t.outplace t.edge, adv.edge_size, outplace, words) in
        let behind =
          layout_next w (length before) (w / 2 - 7) (blank v) deg2 (omega (arith, words)) in
        let ih =
          fill_pass-Passed n (v + 1) next t (omega arith) refl (sym next_size)
            (omega (arith, adv.edge_size)) filled.high_fits filled.high_small
            (omega (arith, adv.edge_size, next_size, outplace, words))
            (omega (arith, adv.high_size, adv.high_e_at)) in
        Passed-cons n v before s w (blank v) t filled wide adv
          (omega (arith, next_size, outplace, words))
          (subst
            (λ o.
              Passed n (v + 1) next t
                (fill_pass g plog (v + 1) (lay_out blank (word_list g plog n (v + 1)) (v + 1) o) t))
            (next_size ∙ outplace ∙ sym behind) ih)
