-- ===== src/FileGraph/Part.antt =====
-- A part of a graph file, of libcoro/src/FileGraph.cpp. `file` has the bytes of the file, each at its
-- offset, and a mapping of the file shows them: its address is the offset that was asked for.
use corograph.Endian.{convert_le64toh, convert_le32toh, host_load}
use corograph.FileGraph.{
  FileGraph, known_version, sizeof_dst, skip_edges, header_word, from_mem, raw_block_size, clip,
  edge_end, get_edge_dst,
}
use corograph.Base.{
  ℕ, ◌+◌, ◌-◌, ◌*◌, ◌%◌, ◌^◌, ◌≤◌, ◌<◌, ◌≡◌, inl, inr, refl, ap, min, Bool, true, false, ◌==◌, ltb,
  if◌then◌else◌, arith, Bool-cases, Option, none, some, u32, u64, le→ltb,
}

-- The metadata of the part. Without a version that is known there is no size.
unfoldable pub narrow :
    FileGraph → (block_size : Option ℕ) → (part_num_nodes part_num_edges : ℕ) → Option FileGraph
narrow g none part_num_nodes part_num_edges = none
narrow g (some size) part_num_nodes part_num_edges = some record {
  sizeof_edge = g.sizeof_edge;
  num_nodes = part_num_nodes;
  num_edges = part_num_edges;
  out_idx = 32 + g.node_offset * 8;
  outs = 32 + g.num_nodes * 8 + g.edge_offset * sizeof_dst g.graph_version;
  edge_data = if g.sizeof_edge == 0 then 0 else size + g.sizeof_edge * g.edge_offset;
  graph_version = g.graph_version;
  node_offset = g.node_offset;
  edge_offset = g.edge_offset;
}

unfoldable pub part_of : Option FileGraph → (part_num_nodes part_num_edges : ℕ) → Option FileGraph
part_of none part_num_nodes part_num_edges = none
part_of (some g) part_num_nodes part_num_edges =
    narrow g (raw_block_size g.num_nodes g.num_edges 0 g.graph_version) part_num_nodes
      part_num_edges

-- The part with the nodes and the edges of two ranges.
unfoldable pub part_from_file :
    (little : Bool) → (ℕ → ℕ) → (node_first node_last edge_first edge_last : ℕ) → Option FileGraph
part_from_file little file node_first node_last edge_first edge_last =
    part_of (from_mem little file 0 node_first edge_first 0) (node_last - node_first)
      (edge_last - edge_first)

module _ (little : Bool) (file : ℕ → ℕ) (node_first node_last edge_first edge_last : ℕ)
    (good : known_version (u32 (header_word little file 0 0)) ≡ true) where
  abbrev version : ℕ
  version = u32 (header_word little file 0 0)

  abbrev n : ℕ
  n = header_word little file 0 2

  abbrev e : ℕ
  e = header_word little file 0 3

  -- The graph of the whole file.
  abbrev whole : (node_offset edge_offset : ℕ) → FileGraph
  whole node_offset edge_offset = record {
    sizeof_edge = header_word little file 0 1;
    num_nodes = n;
    num_edges = e;
    out_idx = 0 + 32;
    outs = 0 + 32 + 8 * n;
    edge_data = skip_edges version (0 + 32 + 8 * n) e;
    graph_version = version;
    node_offset = node_offset;
    edge_offset = edge_offset;
  }

  from_mem-whole :
      (node_offset edge_offset : ℕ)
      → from_mem little file 0 node_offset edge_offset 0 ≡ some (whole node_offset edge_offset)
  unfolding from_mem
  from_mem-whole node_offset edge_offset = rw good refl

  block_known : (size : ℕ) × (raw_block_size n e 0 version ≡ some size)
  unfolding raw_block_size known_version
  block_known = elim (Bool-cases (version == 1)) [
    | inl v ↦ rw v (_, refl)
    | inr v ↦ let w : (version == 2) ≡ true = let g = good in ground arith in rw (v, w) (_, refl)
  ]

  abbrev part : FileGraph
  part = record {
    sizeof_edge = header_word little file 0 1;
    num_nodes = node_last - node_first;
    num_edges = edge_last - edge_first;
    out_idx = 32 + node_first * 8;
    outs = 32 + n * 8 + edge_first * sizeof_dst version;
    edge_data =
        if header_word little file 0 1 == 0
        then 0
        else block_known.0 + header_word little file 0 1 * edge_first;
    graph_version = version;
    node_offset = node_first;
    edge_offset = edge_first;
  }

  part_from_file-part :
      part_from_file little file node_first node_last edge_first edge_last ≡ some part
  unfolding part_from_file part_of narrow
  part_from_file-part = rw (from_mem-whole node_first edge_first, block_known.1) refl

  dst_agrees :
      (i : ℕ)
      → get_edge_dst little file part i ≡ get_edge_dst little file (whole 0 0) (edge_first + i)
  unfolding get_edge_dst sizeof_dst known_version
  dst_agrees i = elim (Bool-cases (version == 1)) [
    | inl v ↦
        let a : 32 + n * 8 + edge_first * 4 + 4 * i ≡ 0 + 32 + 8 * n + 4 * (edge_first + i) =
          omega arith in
        rw v (ap (λ p. some (convert_le32toh little (host_load little 4 file p))) a)
    | inr v ↦
        let a : 32 + n * 8 + edge_first * 8 + 8 * i ≡ 0 + 32 + 8 * n + 8 * (edge_first + i) =
          omega arith in
        let w : (version == 2) ≡ true = let g = good in ground arith in
        rw (v, w) (ap (λ p. some (convert_le64toh little (host_load little 8 file p))) a)
  ]

  end_agrees :
      (k : ℕ)
      → node_first ≤ k
      → edge_first ≤ edge_last
      → edge_last ≤ e
      → e < 2 ^ 64
      → edge_first ≤ edge_end little file (whole 0 0) k
      → edge_end little file part k
        ≡ min (edge_end little file (whole 0 0) k) edge_last - edge_first
  unfolding edge_end clip
  end_agrees k h o p small start =
      let t : ltb k node_first ≡ false = le→ltb k node_first h in
      let z : ltb k 0 ≡ false = le→ltb k 0 (omega arith) in
      let a : 32 + node_first * 8 + 8 * (k - node_first) ≡ 0 + 32 + 8 * (k - 0) = omega arith in
      let s = rw z at start in rw (t, z, a) (omega arith)

  size_lem :
      (size : ℕ)
      → raw_block_size n e 0 version ≡ some size
      → 32 + 8 * n + 8 * e + 8 * (e % 2) < 2 ^ 64
      → size + (if version == 2 then 8 * (e % 2) else 0) ≡ skip_edges version (32 + 8 * n) e
  unfolding raw_block_size skip_edges sizeof_dst known_version
  size_lem size block fits = elim (Bool-cases (version == 1)) [
    | inl v ↦
        let x : (version == 2) ≡ false = ground arith in
        let b = rw v at block in
        let c : u64 (32 + 8 * n + 4 * e + 4 * (e % 2) + 0 * e) ≡ size = ground arith in
        rw (v, x) (omega arith)
    | inr v ↦
        let w : (version == 2) ≡ true = let g = good in ground arith in
        let b = rw (v, w) at block in
        let c : u64 (32 + 8 * n + 8 * e + 0 * e) ≡ size = ground arith in rw (v, w) (omega arith)
  ]

  data_agrees :
      0 < header_word little file 0 1
      → 32 + 8 * n + 8 * e + 8 * (e % 2) < 2 ^ 64
      → part.edge_data + (if version == 2 then 8 * (e % 2) else 0)
        ≡ (whole 0 0).edge_data + header_word little file 0 1 * edge_first
  data_agrees some_data fits =
      let z : (header_word little file 0 1 == 0) ≡ false = ground arith in
      let l = size_lem block_known.0 block_known.1 fits in rw z (omega arith)

-- A part of a file of a known version, with edge data, and the graph of the whole file, when the
-- edges of the part are among those of the file and the sizes fit 64 bits: a node of the part from
-- which the part's edges start has its edges end in the part where they end in the whole, at the
-- latest at the last edge of the part, counted from the first one; the destinations are those of the
-- whole; and the edge data is that of the whole, but in version 2 with an odd number of edges it is
-- taken eight bytes before it.
pub part_agrees :
    (little : Bool) (file : ℕ → ℕ) (node_first node_last edge_first edge_last : ℕ)
    → known_version (u32 (header_word little file 0 0)) ≡ true
    → 0 < header_word little file 0 1
    → edge_first ≤ edge_last
    → edge_last ≤ header_word little file 0 3
    → 32
        + 8 * header_word little file 0 2
        + 8 * header_word little file 0 3
        + 8 * (header_word little file 0 3 % 2)
      < 2 ^ 64
    → (p w : FileGraph) × (part_from_file little file node_first node_last edge_first edge_last
        ≡ some p)
      × (from_mem little file 0 0 0 0 ≡ some w)
      × ((k : ℕ)
          → node_first ≤ k
          → edge_first ≤ edge_end little file w k
          → edge_end little file p k ≡ min (edge_end little file w k) edge_last - edge_first)
      × ((i : ℕ) → get_edge_dst little file p i ≡ get_edge_dst little file w (edge_first + i))
      × (p.edge_data + (if w.graph_version == 2 then 8 * (w.num_edges % 2) else 0)
          ≡ w.edge_data + w.sizeof_edge * edge_first)
part_agrees little file node_first node_last edge_first edge_last good some_data ordered inside
      fits =
    (
      part little file node_first node_last edge_first edge_last good,
      whole little file node_first node_last edge_first edge_last good 0 0,
      part_from_file-part little file node_first node_last edge_first edge_last good,
      from_mem-whole little file node_first node_last edge_first edge_last good 0 0,
      λ k h start.
          end_agrees little file node_first node_last edge_first edge_last good k h ordered inside
            (omega arith) start,
      dst_agrees little file node_first node_last edge_first edge_last good,
      data_agrees little file node_first node_last edge_first edge_last good some_data fits,
    )
