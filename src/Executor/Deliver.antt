-- ===== src/Executor/Deliver.antt =====
-- Reading back what `partition` stored: `coro_scatter` and `coro_gather` of
-- libcoro/include/galois/runtime/Executor_ForEach.h over the arrays of Partition_Graph.h.
use corograph.Base.{
  ℕ, zero, suc, ◌+◌, ◌*◌, ◌^◌, ◌<◌, ◌≤◌, ◌≡◌, refl, sym, ap, ap₂, ◌∙◌, subst, List, [], ◌∷◌, ◌++◌,
  map, append_assoc, length, length-append, drop, take-append-drop, get_or-append_right, u32, shr,
  lt→ltb, le→ltb, arith,
}
use mathlib.Core.List.{map-append}
use native.Mathlib.Decide.{dec_lt}
use corograph.Partition.{VtxArr, at}
use corograph.Partition.Fill.Stored.{Pair, flat, length-flat, Stored, AllStored, low, run}
use corograph.Partition.Fill.Pass.{VertexStored}
use corograph.Executor.{
  pairs_loop, scatter_pair, scatter_vertex, with_dist, gather_item, gather_items,
}
use corograph.Executor.Words.{header_mark, header_length, passed_on, passed_length}

at-behind :
    (before : List ℕ) (a : ℕ) (rest : List ℕ) → at (before ++ (a ∷ rest)) (length before) ≡ a
at-behind before a rest =
    let e : length before ≡ length before + 0 = omega arith in
    subst (λ k. at (before ++ (a ∷ rest)) k ≡ a) (sym e) (get_or-append_right before (a ∷ rest) 0 0)

at-behind_next :
    (before : List ℕ) (a b : ℕ) (rest : List ℕ)
    → at (before ++ (a ∷ b ∷ rest)) (length before + 1) ≡ b
at-behind_next before a b rest = get_or-append_right before (a ∷ b ∷ rest) 1 0

pairs_loop-stop :
    (fuel : ℕ) (arr : List ℕ) (e stop : ℕ) → stop ≤ e → pairs_loop fuel arr e stop ≡ []
unfolding pairs_loop
pairs_loop-stop zero arr e stop h = refl
pairs_loop-stop (suc fuel) arr e stop h = rw (le→ltb e stop h)

-- The loop reads the pairs that lie between its start and its end.
pub pairs_loop_lem :
    (fuel : ℕ) (ps : List Pair) (before after : List ℕ) (stop : ℕ)
    → stop ≡ length before + 2 * length ps
    → stop < 2 ^ 32
    → length ps ≤ fuel
    → pairs_loop fuel (before ++ (flat ps ++ after)) (length before) stop ≡ ps
unfolding pairs_loop
pairs_loop_lem fuel [] before after stop e small h =
    pairs_loop-stop fuel (before ++ after) (length before) stop (omega arith)
pairs_loop_lem zero ((a, b) ∷ ps) before after stop e small h = absurd (omega arith)
pairs_loop_lem (suc fuel) ((a, b) ∷ ps) before after stop e small h =
    let next = before ++ a ∷ b ∷ [] in
    let size : length next ≡ length before + 2 = length-append before (a ∷ b ∷ []) in
    let step : u32 (length before + 2) ≡ length next = omega (arith, size) in
    let one : u32 (length before + 1) ≡ length before + 1 = omega arith in
    let same : before ++ (a ∷ b ∷ (flat ps ++ after)) ≡ next ++ (flat ps ++ after) =
      sym (append_assoc before (a ∷ b ∷ []) (flat ps ++ after)) in
    let ih = pairs_loop_lem fuel ps next after stop (omega (arith, size)) small (omega arith) in
    rw
      (
        lt→ltb (length before) stop (omega arith),
        one,
        at-behind before a (b ∷ (flat ps ++ after)),
        at-behind_next before a b (flat ps ++ after),
        step,
        same,
      )
      (ap (λ t. (a, b) ∷ t) ih)

-- Scatter and gather of one stored pair give its edges, with the distance of the source.
pub gather-scatter_pair :
    (high : List ℕ) (p : Pair) (es : List Pair) (dist : ℕ)
    → length high < 2 ^ 32
    → Stored high p es
    → gather_item high (scatter_pair dist p).1 ≡ map (with_dist dist) es
unfolding gather_item scatter_pair
gather-scatter_pair high (a, b) es dist small (low h e) =
    let mark : shr a 31 ≡ 0 = omega arith in rw (e, mark, mark)
gather-scatter_pair high (a, b) es dist small (run part before after hp hl e0 e1 e) =
    let n = length es in
    let mark = header_mark n part hl hp in
    let len = header_length n part hl hp in
    let on = passed_on n part hl hp in
    let again : shr (2 ^ 31 + 2 * n) 31 ≡ 1 = omega arith in
    let deg = passed_length n part hl hp in
    let bound : length before + 2 * n < 2 ^ 32 = omega (
      arith,
      small,
      ap length e,
      length-append before (flat es ++ after),
      length-append (flat es) after,
      length-flat es,
    ) in
    let stop : u32 (length before + 2 * n) ≡ length before + 2 * n = omega arith in
    rw (e0, e1, mark, len, on, again, deg, stop, e)
      (ap (map (with_dist dist))
        (pairs_loop_lem (2 * n) es before after (length before + 2 * n) refl bound (omega arith)))

pub gather-scatter_pairs :
    (high : List ℕ) (ps es : List Pair) (dist : ℕ)
    → length high < 2 ^ 32
    → AllStored high ps es
    → gather_items high (map (scatter_pair dist) ps) ≡ map (with_dist dist) es
unfolding gather_items
gather-scatter_pairs high [] es dist small e = rw e
gather-scatter_pairs high (p ∷ ps) es dist small (first, rest, e, s, h) =
    ap₂ ◌++◌ (gather-scatter_pair high p first dist small s)
      (gather-scatter_pairs high ps rest dist small h)
    ∙ sym (ap (map (with_dist dist)) e ∙ map-append (with_dist dist) first rest)

nil_of_length {ℓ} : {A : Type ℓ} (xs : List A) → length xs ≡ 0 → xs ≡ []
nil_of_length [] h = refl
nil_of_length (x ∷ xs) h = absurd (omega arith)

inner_pairs :
    {edge high : List ℕ} {vtx : VtxArr} {es : List Pair} (h : VertexStored edge high vtx es)
    → pairs_loop vtx.deg1 vtx.pe 0 vtx.deg1 ≡ h.inner
inner_pairs {vtx} h =
    let k = 2 * length h.inner in
    let whole : vtx.pe ≡ flat h.inner ++ drop k vtx.pe =
      sym (take-append-drop k vtx.pe) ∙ ap (λ t. t ++ drop k vtx.pe) h.pe_has in
    subst (λ xs. pairs_loop vtx.deg1 xs 0 vtx.deg1 ≡ h.inner) (sym whole)
      (pairs_loop_lem vtx.deg1 h.inner [] (drop k vtx.pe) vtx.deg1 (omega (arith, h.deg1_at))
        (omega (arith, h.deg1_at, h.inner_le)) (omega (arith, h.deg1_at)))

outer_pairs :
    {edge high : List ℕ} {vtx : VtxArr} {es : List Pair} (h : VertexStored edge high vtx es)
    → length edge < 2 ^ 32
    → pairs_loop vtx.deg2 edge vtx.offset (u32 (vtx.offset + vtx.deg2)) ≡ h.outer
unfolding pairs_loop
outer_pairs {edge} {vtx} h small = elim (dec_lt 0 vtx.deg2) [
  | no stop ↦
      let e : vtx.deg2 ≡ 0 = omega arith in
      rw (e, nil_of_length h.outer (omega (arith, h.deg2_at)), pairs_loop)
  | yes more ↦
      let at_start = h.offset_at more in
      let bound : length h.before + vtx.deg2 < 2 ^ 32 = omega (
        arith,
        ap length h.edge_has,
        length-append h.before (flat h.outer ++ h.after),
        length-append (flat h.outer) h.after,
        length-flat h.outer,
        h.deg2_at,
      ) in
      let stop : u32 (length h.before + vtx.deg2) ≡ length h.before + vtx.deg2 =
        omega (arith, bound) in
      subst (λ o. pairs_loop vtx.deg2 edge o (u32 (o + vtx.deg2)) ≡ h.outer) (sym at_start)
        (subst
          (λ xs.
            pairs_loop vtx.deg2 xs (length h.before) (u32 (length h.before + vtx.deg2)) ≡ h.outer)
          (sym h.edge_has)
          (pairs_loop_lem vtx.deg2 h.outer h.before h.after (u32 (length h.before + vtx.deg2))
            (omega (arith, stop, h.deg2_at)) (omega arith) (omega (arith, h.deg2_at))))
]

-- Scatter and gather of a stored vertex give its edges in order, with the distance of the vertex.
pub gather-scatter_vertex :
    {edge high : List ℕ} {vtx : VtxArr} {es : List Pair} (dist : ℕ)
    → VertexStored edge high vtx es
    → length edge < 2 ^ 32
    → length high < 2 ^ 32
    → gather_items high (scatter_vertex edge vtx dist) ≡ map (with_dist dist) es
unfolding scatter_vertex
gather-scatter_vertex {high} {es} dist h small_edge small_high =
    rw (inner_pairs h, outer_pairs h small_edge)
      (gather-scatter_pairs high (h.inner ++ h.outer) es dist small_high h.stored)
