-- ===== src/FileGraph/Tests.antt =====
-- Graphs of two nodes and three edges in blocks of libcoro/src/FileGraph.cpp.
use corograph.Endian.{convert_le64toh, host_load, load_le}
use corograph.FileGraph.{
  FileGraph, known_version, from_mem, header_word, raw_block_size, write_arrays, edge_begin,
  edge_end, get_edge_dst, clip,
}
use corograph.FileGraph.Layout.{Bytes}
use corograph.FileGraph.Reads.{Reads}
use corograph.FileGraph.Block.{writes_behind}
use corograph.FileGraph.Part.{part_from_file, part_agrees}
use corograph.FileGraph.Neighbors.{has_neighbor, has_neighbor_lem}
use corograph.Base.{
  ℕ, ◌+◌, ◌-◌, ◌*◌, ◌%◌, ◌≤◌, ◌<◌, ◌≡◌, ◌↔◌, refl, min, Bool, true, false, ◌==◌, if◌then◌else◌,
  arith, some,
}

abbrev empty : ℕ → ℕ
empty a = 0

empty-Bytes : Bytes empty
empty-Bytes a = omega arith

-- Node 0 has an edge to 1, node 1 has edges to 0 and 1.
abbrev ends : ℕ → ℕ
ends k = if k == 0 then 1 else 3

abbrev targets : ℕ → ℕ
targets k = if k == 1 then 0 else 1

abbrev values : ℕ → ℕ
values k = 7

block_two : raw_block_size 2 3 4 2 ≡ some 84
unfolding raw_block_size
block_two = refl

writes_behind_example :
    write_arrays true false empty 64 ends 2 targets 3 (some values) 4 2 (64 + 84 + 7)
    ≡ values (4 * 3 - 1)
writes_behind_example =
    writes_behind true empty empty-Bytes 64 ends 2 targets 3 values 4 (omega arith) 84 (omega arith)
      (omega arith) (λ k. omega arith) block_two

-- A little-endian file of version 2 with two nodes, three edges and edge data of eight bytes.
abbrev header : ℕ → ℕ
header a =
    if a == 0
    then 2
    else if a == 8
    then 8
    else if a == 16
    then 2
    else if a == 24
    then 3
    else if a == 32
    then 1
    else if a == 40
    then 3
    else 0

part_agrees_example :
    (p w : FileGraph) × (part_from_file true header 1 2 1 3 ≡ some p)
    × (from_mem true header 0 0 0 0 ≡ some w)
    × ((k : ℕ)
        → 1 ≤ k
        → 1 ≤ edge_end true header w k
        → edge_end true header p k ≡ min (edge_end true header w k) 3 - 1)
    × ((i : ℕ) → get_edge_dst true header p i ≡ get_edge_dst true header w (1 + i))
    × (p.edge_data + (if w.graph_version == 2 then 8 * (w.num_edges % 2) else 0)
        ≡ w.edge_data + w.sizeof_edge * 1)
unfolding header_word host_load load_le convert_le64toh known_version
part_agrees_example =
    part_agrees true header 1 2 1 3 refl (omega arith) (omega arith) (omega arith) (omega arith)

-- The graph of that file.
abbrev whole : FileGraph
whole = record {
  sizeof_edge = 8;
  num_nodes = 2;
  num_edges = 3;
  out_idx = 32;
  outs = 48;
  edge_data = 80;
  graph_version = 2;
  node_offset = 0;
  edge_offset = 0;
}

begins : edge_begin true header whole 1 ≡ 1
unfolding edge_begin clip host_load load_le convert_le64toh
begins = refl

ends_at : edge_end true header whole 1 ≡ 3
unfolding edge_end clip host_load load_le convert_le64toh
ends_at = refl

has_neighbor_lem_example :
    (answer : Bool) × (has_neighbor true header whole 1 0 ≡ some answer)
    × ((answer ≡ true) ↔ (
        (k : ℕ) × (edge_begin true header whole 1 ≤ k)
        × (k < edge_end true header whole 1)
        × (get_edge_dst true header whole k ≡ some 0)))
unfolding known_version
has_neighbor_lem_example =
    has_neighbor_lem true header whole refl 0 1 (omega (arith, begins, ends_at))
      (omega (arith, ends_at))
