-- ===== src/FileGraph/Neighbors.antt =====
-- The search of an edge by its ends, of libcoro/src/FileGraph.cpp.
use corograph.Endian.{convert_le64toh, convert_le32toh, host_load}
use corograph.FileGraph.{FileGraph, known_version, edge_begin, edge_end, get_edge_dst}
use corograph.Base.{
  ℕ, zero, suc, ◌+◌, ◌-◌, ◌*◌, ◌^◌, ◌≤◌, ◌<◌, ◌≡◌, ◌≢◌, ◌⊎◌, ◌∙◌, ◌↔◌, inl, inr, refl, sym, ap,
  Bool, true, false, not, ◌==◌, if◌then◌else◌, arith, Bool-cases, Option, none, some,
}

-- Whether an edge leads to a node.
unfoldable pub leads_to : (little : Bool) → (ℕ → ℕ) → FileGraph → (it dst : ℕ) → Bool
leads_to little mem g it dst =
    if g.graph_version == 1
    then convert_le32toh little (host_load little 4 mem (g.outs + 4 * it)) == dst
    else convert_le64toh little (host_load little 8 mem (g.outs + 8 * it)) == dst

-- The number that stands for no edge.
abbrev pub no_edge : ℕ
no_edge = 2 ^ 64 - 1

-- The edges from `it` on, of which `left` are left.
unfoldable pub scan_edges : (little : Bool) → (ℕ → ℕ) → FileGraph → (dst left it : ℕ) → ℕ
scan_edges little mem g dst zero it = no_edge
scan_edges little mem g dst (suc left) it =
    let rest = scan_edges little mem g dst left (suc it) in
    if leads_to little mem g it dst then it else rest

unfoldable pub get_edge_idx : (little : Bool) → (ℕ → ℕ) → FileGraph → (src dst : ℕ) → Option ℕ
get_edge_idx little mem g src dst =
    if known_version g.graph_version
    then some (
        scan_edges little mem g dst (edge_end little mem g src - edge_begin little mem g src)
          (edge_begin little mem g src))
    else none

-- The answer from the index.
unfoldable pub is_edge : Option ℕ → Option Bool
is_edge none = none
is_edge (some idx) = some (not (idx == no_edge))

unfoldable pub has_neighbor : (little : Bool) → (ℕ → ℕ) → FileGraph → (n1 n2 : ℕ) → Option Bool
has_neighbor little mem g n1 n2 = is_edge (get_edge_idx little mem g n1 n2)

-- `r` is the first edge from `it` up to `last` that leads to the node, or there is none.
abbrev pub FirstEdge : (little : Bool) → (ℕ → ℕ) → FileGraph → (dst it last r : ℕ) → Type 0
FirstEdge little mem g dst it last r =
    ((r ≡ no_edge) × ((k : ℕ) → it ≤ k → k < last → get_edge_dst little mem g k ≢ some dst))
    ⊎ ((it ≤ r)
        × (r < last)
        × (get_edge_dst little mem g r ≡ some dst)
        × ((k : ℕ) → it ≤ k → k < r → get_edge_dst little mem g k ≢ some dst))

module _ (little : Bool) (mem : ℕ → ℕ) (g : FileGraph) (good : known_version g.graph_version ≡ true)
    (dst : ℕ) where
  leads_to-get_edge_dst :
      (it : ℕ)
      → (x : ℕ) × (get_edge_dst little mem g it ≡ some x)
        × (leads_to little mem g it dst ≡ (x == dst))
  unfolding leads_to get_edge_dst known_version
  leads_to-get_edge_dst it = elim (Bool-cases (g.graph_version == 1)) [
    | inl v ↦ rw v (_, refl, refl)
    | inr v ↦
        let w : (g.graph_version == 2) ≡ true = let h = good in ground arith in
        rw (v, w) (_, refl, refl)
  ]

  hit : (it : ℕ) → leads_to little mem g it dst ≡ true → get_edge_dst little mem g it ≡ some dst
  hit it h =
      let x = leads_to-get_edge_dst it in
      let t = sym x.2 ∙ h in let q : x.0 ≡ dst = ground arith in x.1 ∙ ap some q

  miss : (it : ℕ) → leads_to little mem g it dst ≡ false → get_edge_dst little mem g it ≢ some dst
  miss it h e =
      let x = leads_to-get_edge_dst it in let t = sym x.2 ∙ h in let q = sym x.1 ∙ e in ground arith

  below :
      (it k : ℕ)
      → leads_to little mem g it dst ≡ false
      → (it < k → get_edge_dst little mem g k ≢ some dst)
      → it ≤ k
      → get_edge_dst little mem g k ≢ some dst
  below it k h rest p = elim (Bool-cases (k == it)) [
    | inl e ↦ let q : k ≡ it = ground arith in rw q (miss it h)
    | inr e ↦ rest (ground arith)
  ]

  widen :
      (it last r : ℕ)
      → leads_to little mem g it dst ≡ false
      → FirstEdge little mem g dst (suc it) last r
      → FirstEdge little mem g dst it last r
  widen it last r h (inl (e, none_leads)) = inl (e, λ k p q. below it k h (λ s. none_leads k s q) p)
  widen it last r h (inr (a, b, c, none_before)) =
      inr (omega arith, b, c, λ k p q. below it k h (λ s. none_before k s q) p)

  scan_edges-FirstEdge :
      (left it last : ℕ)
      → it + left ≡ last
      → FirstEdge little mem g dst it last (scan_edges little mem g dst left it)
  unfolding scan_edges
  scan_edges-FirstEdge zero it last h = inl (refl, λ k p q. absurd (omega arith))
  scan_edges-FirstEdge (suc left) it last h = elim (Bool-cases (leads_to little mem g it dst)) [
    | inl e ↦ rw e (inr (omega arith, omega arith, hit it e, λ k p q. absurd (omega arith)))
    | inr e ↦ rw e (
        widen it last (scan_edges little mem g dst left (suc it)) e
          (scan_edges-FirstEdge left (suc it) last (omega arith)))
  ]

  -- In a graph of a known version, for a node whose edges do not end before they begin, `getEdgeIdx`
  -- gives the first of its edges that leads to the other node, or all ones if there is none.
  pub get_edge_idx-FirstEdge :
      (src : ℕ)
      → edge_begin little mem g src ≤ edge_end little mem g src
      → (r : ℕ) × (get_edge_idx little mem g src dst ≡ some r)
        × FirstEdge little mem g dst (edge_begin little mem g src) (edge_end little mem g src) r
  unfolding get_edge_idx
  get_edge_idx-FirstEdge src ordered = (
    _,
    rw good refl,
    scan_edges-FirstEdge (edge_end little mem g src - edge_begin little mem g src)
        (edge_begin little mem g src) (edge_end little mem g src) (omega arith),
  )

  answered :
      (src r : ℕ)
      → edge_end little mem g src ≤ no_edge
      → FirstEdge little mem g dst (edge_begin little mem g src) (edge_end little mem g src) r
      → (not (r == no_edge) ≡ true) ↔ (
          (k : ℕ) × (edge_begin little mem g src ≤ k)
          × (k < edge_end little mem g src)
          × (get_edge_dst little mem g k ≡ some dst))
  answered src r fits (inl (e, none_leads)) =
      (λ h. absurd (ground arith), λ x. absurd (none_leads x.0 x.1 x.2 x.3))
  answered src r fits (inr (a, b, c, none_before)) = (λ h. (r, a, b, c), λ x. ground arith)

  -- `hasNeighbor` tells whether one of the edges of a node leads to the other, in a graph of a known
  -- version where the edges of the node do not end before they begin and end below all ones.
  pub has_neighbor_lem :
      (src : ℕ)
      → edge_begin little mem g src ≤ edge_end little mem g src
      → edge_end little mem g src ≤ no_edge
      → (answer : Bool) × (has_neighbor little mem g src dst ≡ some answer)
        × ((answer ≡ true) ↔ (
            (k : ℕ) × (edge_begin little mem g src ≤ k)
            × (k < edge_end little mem g src)
            × (get_edge_dst little mem g k ≡ some dst)))
  unfolding has_neighbor is_edge
  has_neighbor_lem src ordered fits =
      let r = get_edge_idx-FirstEdge src ordered in rw (r.1) (_, refl, answered src r.0 fits r.2)
